-- ===== src/App/Protection.antt =====
-- The protection mode of src/daemon/app.cpp, from a disconnection to the next connection.
use nmos_client.Base.{
  ℕ, Bool, true, some, Except, ok, err, ℤ, ◌≡◌, refl, ◌∙◌, ◌⊎◌, inl, inr, Bool-cases,
}
use nmos_client.Base.Exec.{result-cases}
use nmos_client.Json.{Json}
use nmos_client.Dto.Types.{SnapshotDto}
use nmos_client.Reconcile.Kind.{Kind, StreamOf}
use nmos_client.Reconcile.Runtime.{NodeOps}
use nmos_client.Reconcile.Engine.{Order, drain_all}
use nmos_client.App.Store.{
  set_daemon_state, set_last_seen_revision, mark_snapshot_signal_received, clear_last_snapshot,
  set_registry_status, no_registration,
}
use nmos_client.App.State.{with_store, App, DaemonConfig, is_connected}
use nmos_client.App.Loop.{Place}
use nmos_client.App.Sync.{Applied, Retrying, perform_sync-settles}
use nmos_client.App.Handlers.{
  reconnect_revision, schedule_sync, on_snapshot_changed, report_drain, handle_ws_connected,
  handle_ws_disconnected, handle_ws_error, handle_registration_event, set_node_state, perform_sync,
  restart_node_runtime, handle_stream_event,
}
use nmos_client.App.Schedule.{Scheduled, unregistered-Scheduled}
use nmos_client.App.Connection.{handle_ws_disconnected-drains}
use nmos_client.App.Reachable.{
  Step, Reachable, here, further, signal, connected, disconnected, error, registration,
  stream_event, restart, request_stop, loop, perform, schedule-same, stopped-same,
  set_node_state-same, loop-same,
}

module _ {J : Json} {S : Type 0} where
  abbrev pub IsProtected : App J S → Type 0
  IsProtected a = a.state_store.status.protection_mode ≡ true

  -- A snapshot is kept.
  abbrev pub KeepsSnapshot : App J S → Type 0
  KeepsSnapshot a =
      (snapshot : SnapshotDto (J.Double)) × (a.state_store.last_snapshot ≡ some snapshot)

module _ {J : Json} {S : Type 0} (node : NodeOps (J.Double) S)
    (arrange : (k : Kind) → Order (StreamOf (J.Double) k)) (config : DaemonConfig) (stop : S → S)
    (start : S → Bool × S) where
  scheduled-IsProtected :
      (now : ℕ) (revision : ℤ) (a : App J S)
      → IsProtected a
      → IsProtected (schedule_sync now revision a)
  scheduled-IsProtected now revision a h =
      rw (schedule-same node arrange config stop start now revision a) h

  drained-IsProtected :
      (a : App J S) → IsProtected a → IsProtected (handle_ws_disconnected node a).1
  unfolding handle_ws_disconnected
  drained-IsProtected a h =
      elim (result-cases (drain_all node a.state_store.last_snapshot a.node_runtime)) [
        | inl (t, e) ↦ rw e refl
        | inr (x, t, e) ↦ rw e h
      ]

  restarted-IsProtected :
      (now : ℕ) (a : App J S)
      → IsProtected a
      → IsProtected (restart_node_runtime stop start now a).1
  unfolding restart_node_runtime
  restarted-IsProtected now a h =
      let b = set_node_state "restarting" a in
      let runtime = start (stop b.node_runtime) in
      let c = record b {
        node_runtime = runtime.1;
        state_store = clear_last_snapshot (set_registry_status no_registration b.state_store);
      } in
      let in_c : IsProtected c =
        (set_node_state-same node arrange config stop start "restarting" a).2 ∙ h in
      elim (Bool-cases runtime.0) [
        | inl e ↦
            let d = set_node_state "running" c in
            rw e (
              scheduled-IsProtected now (reconnect_revision d) d
                ((set_node_state-same node arrange config stop start "running" c).2 ∙ in_c))
        | inr e ↦ rw e ((set_node_state-same node arrange config stop start "stopped" c).2 ∙ in_c)
      ]

  event-IsProtected :
      (k : Kind) (payload : StreamOf (J.Double) k) (a : App J S)
      → IsProtected a
      → IsProtected (handle_stream_event k payload a)
  unfolding handle_stream_event
  event-IsProtected k payload a h = elim (Bool-cases (is_connected a.ws_client)) [
    | inl e ↦ rw e h
    | inr e ↦ rw e h
  ]

  performed :
      (now : ℕ) (fetched : Except (SnapshotDto (J.Double))) (revision : ℤ) (a : App J S)
      → IsProtected a
      → IsProtected (perform_sync node arrange config now fetched revision a)
        ⊎ KeepsSnapshot (perform_sync node arrange config now fetched revision a)
  performed now fetched revision a h = elim (Bool-cases a.stop_requested) [
    | inl e ↦ inl ((stopped-same node arrange config stop start now fetched revision a e).2 ∙ h)
    | inr e ↦ by_result fetched (perform_sync-settles node arrange config now fetched revision a e)
  ]
    where
      by_result :
          (f : Except (SnapshotDto (J.Double)))
          → Applied node arrange config f revision a
              (perform_sync node arrange config now f revision a)
            ⊎ Retrying node arrange config now revision a
                (perform_sync node arrange config now f revision a)
          → IsProtected (perform_sync node arrange config now f revision a)
            ⊎ KeepsSnapshot (perform_sync node arrange config now f revision a)
      by_result (err x) (inl p) = absurd p
      by_result (ok snapshot) (inl p) = inr (snapshot, p.1)
      by_result f (inr p) = inl (p.7 ∙ h)

  step-IsProtected :
      (x y : Place × App J S)
      → Step node arrange config stop start x y
      → IsProtected x.1
      → IsProtected y.1 ⊎ KeepsSnapshot y.1
  unfolding on_snapshot_changed handle_ws_connected report_drain handle_ws_error
      handle_registration_event
  step-IsProtected x y (signal now message p a) h =
      let b =
        with_store (λ s. set_last_seen_revision message.revision (mark_snapshot_signal_received s))
          a in
      inl (scheduled-IsProtected now message.revision (record b { force_sync_pending = true }) h)
  step-IsProtected x y (connected now p a) h =
      let b = report_drain (with_store (set_daemon_state "connected_waiting_snapshot") a) in
      inl (scheduled-IsProtected now (reconnect_revision b) b h)
  step-IsProtected x y (disconnected p a) h = inl (drained-IsProtected a h)
  step-IsProtected x y (error message p a) h = inl h
  step-IsProtected x y (registration status p a) h = inl h
  step-IsProtected x y (stream_event k payload p a) h = inl (event-IsProtected k payload a h)
  step-IsProtected x y (restart now p a) h = inl (restarted-IsProtected now a h)
  step-IsProtected x y (request_stop p a) h = inl h
  step-IsProtected x y (loop now p a) h =
      inl ((loop-same node arrange config stop start now p a).2 ∙ h)
  step-IsProtected x y (perform now fetched revision is_retry a) h =
      performed now fetched revision a h

  -- On the way from `x` to `y`, a state kept a snapshot.
  abbrev pub Synchronised : Place × App J S → Place × App J S → Type 0
  Synchronised x y =
      (z : Place × App J S) × (KeepsSnapshot z.1
        × (Reachable node arrange config stop start x z
            × Reachable node arrange config stop start z y))

  stays-IsProtected :
      (x y : Place × App J S)
      → IsProtected x.1
      → Reachable node arrange config stop start x y
      → IsProtected y.1 ⊎ Synchronised x y
  stays-IsProtected x y h here = inl h
  stays-IsProtected x y h (further z w r s) = elim (stays-IsProtected x z h r) [
    | inl p ↦ elim (step-IsProtected z w s p) [
      | inl q ↦ inl q
      | inr q ↦ inr (w, (q, (further z w r s, here)))
    ]
    | inr (t, (q, (r', r''))) ↦ inr (t, (q, (r', further z w r'' s)))
  ]

  -- After a disconnection whose handler returned, and any handlers and loop steps in any order after
  -- it, a connection leaves a synchronisation pending, with no retry delay, whatever revision was
  -- seen or applied before, unless a snapshot has been applied since and was kept.
  pub reconnect-Scheduled :
      (now : ℕ) (p : Place) (a b : App J S) (y : Place × App J S)
      → handle_ws_disconnected node a ≡ (ok tt, b)
      → Reachable node arrange config stop start (p, b) y
      → Scheduled (reconnect_revision y.1) (handle_ws_connected now y.1) ⊎ Synchronised (p, b) y
  unfolding handle_ws_connected report_drain
  reconnect-Scheduled now p a b y h r =
      let (drained, protection, registered, snapshot, pending) =
        handle_ws_disconnected-drains node a b h in
      elim (stays-IsProtected (p, b) y protection r) [
        | inl q ↦
            let c = report_drain (with_store (set_daemon_state "connected_waiting_snapshot") y.1) in
            inl (unregistered-Scheduled now (reconnect_revision c) c (rw q refl))
        | inr q ↦ inr q
      ]
