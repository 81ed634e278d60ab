-- ===== src/App/Debounce.antt =====
-- `App::sync_loop` of src/daemon/app.cpp.
use nmos_client.Base.{ℕ, ◌≤◌, Bool, true, false, ℤ, pos, ◌≡◌}
use nmos_client.Json.{Json}
use nmos_client.Reconcile.Kind.{Kind, StreamOf}
use nmos_client.Reconcile.Runtime.{NodeOps}
use nmos_client.Reconcile.Engine.{Order}
use nmos_client.App.State.{App, DaemonConfig, after_ms}
use nmos_client.App.Loop.{Place, top, is_retry_attempt}
use nmos_client.App.Reachable.{Reachable}

module _ {J : Json} {S : Type 0} (config : DaemonConfig) where
  -- What a step that enters `perform_sync` has done: it took the pending revision and left nothing
  -- pending, no stop is requested and the retry delay is over.
  abbrev pub Taken : ℕ → App J S → ℤ → Bool → App J S → Type 0
  Taken now a revision is_retry b =
      (revision ≡ a.pending_revision)
      × (is_retry ≡ is_retry_attempt a)
      × (a.stop_requested ≡ false)
      × (a.next_sync_not_before ≤ now)
      × (b.sync_pending ≡ false)
      × (b.force_sync_pending ≡ false)
      × (b.pending_revision ≡ pos 0)
      × (b.next_sync_not_before ≡ 0)

  module _ (node : NodeOps (J.Double) S) (arrange : (k : Kind) → Order (StreamOf (J.Double) k))
      (stop : S → S) (start : S → Bool × S) where
    -- A wait until the deadline began on the way from `x`: a synchronisation was pending, and the
    -- deadline is the interval after the signal that was the last one then.
    abbrev pub Began : Place × App J S → ℕ → App J S → Type 0
    Began x deadline a =
        Reachable node arrange config stop start x (top, a)
        × (a.sync_pending ≡ true)
        × (deadline ≡ after_ms a.last_signal_time config.snapshot_debounce_ms)
