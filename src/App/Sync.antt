-- ===== src/App/Sync.antt =====
-- `App::perform_sync` of src/daemon/app.cpp.
use nmos_client.Base.{
  ℕ, String, true, false, some, Except, ok, err, ℤ, ◌≡◌, refl, ◌⊎◌, inl, inr, Bool-cases, ◌≤ℤ◌,
}
use nmos_client.Base.Exec.{result-cases}
use nmos_client.Json.{Json}
use nmos_client.Dto.Types.{SnapshotDto}
use nmos_client.Dto.Snapshot.{has_any_streams}
use nmos_client.Reconcile.Kind.{Kind, StreamOf}
use nmos_client.Reconcile.Runtime.{NodeOps}
use nmos_client.Reconcile.Engine.{Order, apply_snapshot}
use nmos_client.App.State.{App, DaemonConfig, after_ms, is_connected}
use nmos_client.App.Store.{set_daemon_state}
use nmos_client.App.Handlers.{perform_sync, sync_failed}
use nmos_client.App.Schedule.{raise_bounds}

module _ {J : Json} {S : Type 0} (node : NodeOps (J.Double) S)
    (arrange : (k : Kind) → Order (StreamOf (J.Double) k)) (config : DaemonConfig) where
  -- The snapshot was fetched and applied: the status and the last snapshot say so.
  abbrev pub Applied : Except (SnapshotDto (J.Double)) → ℤ → App J S → App J S → Type 0
  Applied (err e) revision a b = ⊥
  Applied (ok snapshot) revision a b =
      (apply_snapshot (J.double_eq) node arrange a.state_store.last_snapshot snapshot a.node_runtime
        ≡ (ok tt, b.node_runtime))
      × (b.state_store.last_snapshot ≡ some snapshot)
      × (b.state_store.status.last_applied_revision ≡ revision)
      × (b.state_store.status.streams_registered ≡ has_any_streams snapshot)
      × (b.state_store.status.protection_mode ≡ false)
      × (b.state_store.status.last_sync_error ≡ "")

  -- The attempt failed: a retry is pending after the reconnect interval, and what the store says of
  -- the last applied snapshot is unchanged.
  abbrev pub Retrying : ℕ → ℤ → App J S → App J S → Type 0
  Retrying now revision a b =
      (b.sync_pending ≡ true)
      × (revision ≤ℤ b.pending_revision)
      × (b.next_sync_not_before ≡ after_ms now config.reconnect_interval_ms)
      × (b.state_store.status.daemon_state ≡ "degraded")
      × (b.state_store.last_snapshot ≡ a.state_store.last_snapshot)
      × (b.state_store.status.last_applied_revision ≡ a.state_store.status.last_applied_revision)
      × (b.state_store.status.streams_registered ≡ a.state_store.status.streams_registered)
      × (b.state_store.status.protection_mode ≡ a.state_store.status.protection_mode)

  sync_failed-Retrying :
      (now : ℕ) (revision : ℤ) (message : String) (a b : App J S)
      → b.state_store.last_snapshot ≡ a.state_store.last_snapshot
      → b.state_store.status.last_applied_revision ≡ a.state_store.status.last_applied_revision
      → b.state_store.status.streams_registered ≡ a.state_store.status.streams_registered
      → b.state_store.status.protection_mode ≡ a.state_store.status.protection_mode
      → Retrying now revision a (sync_failed node arrange config now revision message b)
  sync_failed-Retrying now revision message a b p q r t =
      let bound = (raise_bounds revision b.pending_revision).0 in
      elim (Bool-cases (is_connected b.ws_client)) [
        | inl e ↦ rw e (refl, bound, refl, refl, p, q, r, t)
        | inr e ↦ rw e (refl, bound, refl, refl, p, q, r, t)
      ]

  -- A call of `perform_sync` while no stop is requested has applied the fetched snapshot and recorded
  -- it, or has left a retry pending, for the same or a newer revision, after the reconnect interval,
  -- with the record of the last applied snapshot unchanged.
  pub perform_sync-settles :
      (now : ℕ) (fetched : Except (SnapshotDto (J.Double))) (revision : ℤ) (a : App J S)
      → a.stop_requested ≡ false
      → Applied fetched revision a (perform_sync node arrange config now fetched revision a)
        ⊎ Retrying now revision a (perform_sync node arrange config now fetched revision a)
  unfolding perform_sync
  perform_sync-settles now (err e) revision a h = rw h (
      inr (
        sync_failed-Retrying now revision e a
          (record a {
            stop_requested = false;
            state_store = set_daemon_state "resyncing" a.state_store;
          })
          refl refl refl refl))
  perform_sync-settles now (ok snapshot) revision a h =
      elim (result-cases (
        apply_snapshot (J.double_eq) node arrange a.state_store.last_snapshot snapshot
          a.node_runtime)) [
            | inl (t, e) ↦ rw (h, e) (inl (refl, refl, refl, refl, refl, refl))
            | inr (x, t, e) ↦
                rw (h, e)
                  (inr (
                    sync_failed-Retrying now revision x a
                      (record a {
                        stop_requested = false;
                        state_store = set_daemon_state "resyncing" a.state_store;
                        node_runtime = t;
                      })
                      refl refl refl refl))
          ]
