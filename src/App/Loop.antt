-- ===== src/App/Loop.antt =====
-- `App::sync_loop` of src/daemon/app.cpp, as a step from the place where the thread stands: the
-- loop's top, the debounce wait until a deadline, the wait before a retry, `perform_sync`, and the
-- end. A step is taken at a time `now`; a wait that goes on is a step that stays.
use nmos_client.Base.{ℕ, Bool, true, false, not, ◌&&◌, ◌||◌, ℤ, pos, eqb, ltb, if◌then◌else◌}
use nmos_client.Json.{Json}
use nmos_client.App.State.{App, DaemonConfig, after_ms}

pub data Place : Type 0 where
  top : Place
  debounce : ℕ → Place
  delay : Place
  performing : ℤ → Bool → Place
  finished : Place

module _ {J : Json} {S : Type 0} where
  abbrev pub is_retry_attempt : App J S → Bool
  is_retry_attempt a = not (eqb a.next_sync_not_before 0)

  -- What the loop resets before it lets go of the lock.
  unfoldable pub take_pending : Bool → App J S → Place × App J S
  take_pending is_retry a = (
    performing a.pending_revision is_retry,
    record a {
      sync_pending = false;
      force_sync_pending = false;
      pending_revision = pos 0;
      next_sync_not_before = 0;
    },
  )

  unfoldable pub sync_loop_step : DaemonConfig → ℕ → Place → App J S → Place × App J S
  unfolding take_pending
  sync_loop_step config now top a =
      if a.stop_requested
      then (finished, a)
      else (if a.sync_pending
          then (debounce (after_ms a.last_signal_time config.snapshot_debounce_ms), a)
          else (top, a))
  sync_loop_step config now (debounce deadline) a =
      if a.stop_requested || ltb deadline a.last_signal_time
      then (top, a)
      else (if ltb now deadline
          then (debounce deadline, a)
          else (if is_retry_attempt a && ltb now a.next_sync_not_before
              then (delay, a)
              else take_pending (is_retry_attempt a) a))
  sync_loop_step config now delay a =
      if a.stop_requested || eqb a.next_sync_not_before 0
      then (top, a)
      else (if ltb now a.next_sync_not_before then (delay, a) else take_pending true a)
  -- The thread is in `perform_sync`, or gone.
  sync_loop_step config now (performing revision is_retry) a = (performing revision is_retry, a)
  sync_loop_step config now finished a = (finished, a)
