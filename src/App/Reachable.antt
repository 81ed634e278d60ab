-- ===== src/App/Reachable.antt =====
-- The daemon of src/daemon/app.cpp as a machine: the handlers of the callbacks and the steps of
-- `sync_loop` in any order, each as one step.
use nmos_client.Base.{
  ◌&&◌, ℕ, String, Bool, true, false, Option, none, some, Except, ok, err, ℤ, ◌≡◌, refl, arith,
  Bool-cases, inl, inr, ◌⊎◌,
}
use nmos_client.Base.Exec.{result-cases}
use nmos_client.Json.{Json}
use nmos_client.Dto.Types.{SnapshotDto, RegistrationStatus, SnapshotChangedMessage}
use nmos_client.Dto.Snapshot.{has_any_streams}
use nmos_client.Reconcile.Kind.{Kind, StreamOf}
use nmos_client.Reconcile.Runtime.{NodeOps}
use nmos_client.Reconcile.Engine.{Order, drain_all}
use nmos_client.App.Store.{
  set_daemon_state, set_last_seen_revision, mark_snapshot_signal_received, clear_last_snapshot,
  set_registry_status, no_registration,
}
use nmos_client.App.State.{with_store, App, DaemonConfig, is_connected}
use nmos_client.App.Loop.{
  Place, top, debounce, delay, performing, finished, take_pending, sync_loop_step,
}
use nmos_client.App.Sync.{Applied, Retrying, perform_sync-settles}
use nmos_client.App.Handlers.{
  reconnect_revision, schedule_sync, on_snapshot_changed, report_drain, handle_ws_connected,
  handle_ws_disconnected, handle_ws_error, handle_registration_event, set_node_state, perform_sync,
  restart_node_runtime, handle_stream_event,
}

-- The status says whether the last applied snapshot has streams; without one, protection mode
-- means that none is registered.
abbrev pub ConsistentFor : {D : Type 0} → Option (SnapshotDto D) → Bool → Bool → Type 0
ConsistentFor (some snapshot) registered protection =
    (registered ≡ has_any_streams snapshot) × (protection ≡ false)
ConsistentFor none registered protection = (protection && registered) ≡ false

module _ {J : Json} {S : Type 0} where
  abbrev pub IsConsistent : App J S → Type 0
  IsConsistent a =
      ConsistentFor a.state_store.last_snapshot a.state_store.status.streams_registered
        a.state_store.status.protection_mode

-- Without a snapshot, what was consistent stays so.
cleared :
    {D : Type 0} (o : Option (SnapshotDto D)) (r p : Bool) → ConsistentFor o r p → (p && r) ≡ false
cleared none r p h = h
cleared (some snapshot) r p h = rw h.1 refl

module _ {J : Json} {S : Type 0} (node : NodeOps (J.Double) S)
    (arrange : (k : Kind) → Order (StreamOf (J.Double) k)) (config : DaemonConfig) (stop : S → S)
    (start : S → Bool × S) where
  pub data Step : Place × App J S → Place × App J S → Type 0 where
    signal :
        (now : ℕ) (message : SnapshotChangedMessage) (p : Place) (a : App J S)
        → Step (p, a) (p, on_snapshot_changed now message a)
    connected : (now : ℕ) (p : Place) (a : App J S) → Step (p, a) (p, handle_ws_connected now a)
    disconnected : (p : Place) (a : App J S) → Step (p, a) (p, (handle_ws_disconnected node a).1)
    error :
        (message : String) (p : Place) (a : App J S) → Step (p, a) (p, handle_ws_error message a)
    registration :
        (status : RegistrationStatus) (p : Place) (a : App J S)
        → Step (p, a) (p, handle_registration_event status a)
    stream_event :
        (k : Kind) (payload : StreamOf (J.Double) k) (p : Place) (a : App J S)
        → Step (p, a) (p, handle_stream_event k payload a)
    restart :
        (now : ℕ) (p : Place) (a : App J S)
        → Step (p, a) (p, (restart_node_runtime stop start now a).1)
    request_stop : (p : Place) (a : App J S) → Step (p, a) (p, record a { stop_requested = true })
    loop : (now : ℕ) (p : Place) (a : App J S) → Step (p, a) (sync_loop_step config now p a)
    perform :
        (now : ℕ) (fetched : Except (SnapshotDto (J.Double))) (revision : ℤ) (is_retry : Bool)
        (a : App J S)
        → Step
            (performing revision is_retry, a)
            (top, perform_sync node arrange config now fetched revision a)

  -- What can be reached from a state.
  pub data Reachable (start_state : Place × App J S) : Place × App J S → Type 0 where
    here : Reachable start_state start_state
    further : (x y : Place × App J S) → Reachable start_state x → Step x y → Reachable start_state y

  -- Two states whose stores agree on these three.
  abbrev pub SameRecord : App J S → App J S → Type 0
  SameRecord a b =
      (b.state_store.last_snapshot ≡ a.state_store.last_snapshot)
      × (b.state_store.status.streams_registered ≡ a.state_store.status.streams_registered)
      × (b.state_store.status.protection_mode ≡ a.state_store.status.protection_mode)

  same-IsConsistent : (a b : App J S) → SameRecord a b → IsConsistent a → IsConsistent b
  same-IsConsistent a b (p, q, r) h = rw (p, q, r) h

  pub schedule-same :
      (now : ℕ) (revision : ℤ) (a : App J S)
      → (schedule_sync now revision a).state_store ≡ a.state_store
  unfolding schedule_sync
  schedule-same now revision a = ground arith

  pub stopped-same :
      (now : ℕ) (fetched : Except (SnapshotDto (J.Double))) (revision : ℤ) (a : App J S)
      → a.stop_requested ≡ true
      → SameRecord a (perform_sync node arrange config now fetched revision a)
  unfolding perform_sync
  stopped-same now fetched revision a e = rw e (refl, refl, refl)

  pub set_node_state-same : (state : String) (a : App J S) → SameRecord a (set_node_state state a)
  unfolding set_node_state
  set_node_state-same state a = elim (Bool-cases (is_connected a.ws_client)) [
    | inl e ↦ rw e (refl, refl, refl)
    | inr e ↦ rw e (refl, refl, refl)
  ]

  schedule_sync-IsConsistent :
      (now : ℕ) (revision : ℤ) (a : App J S)
      → IsConsistent a
      → IsConsistent (schedule_sync now revision a)
  schedule_sync-IsConsistent now revision a h = rw (schedule-same now revision a) h

  settled :
      (now : ℕ) (fetched : Except (SnapshotDto (J.Double))) (revision : ℤ) (a : App J S)
      → IsConsistent a
      → IsConsistent (perform_sync node arrange config now fetched revision a)
  settled now fetched revision a h = elim (Bool-cases a.stop_requested) [
    | inl e ↦
        same-IsConsistent a (perform_sync node arrange config now fetched revision a)
          (stopped-same now fetched revision a e) h
    | inr e ↦ by_result fetched (perform_sync-settles node arrange config now fetched revision a e)
  ]
    where
      by_result :
          (f : Except (SnapshotDto (J.Double)))
          → Applied node arrange config f revision a
              (perform_sync node arrange config now f revision a)
            ⊎ Retrying node arrange config now revision a
                (perform_sync node arrange config now f revision a)
          → IsConsistent (perform_sync node arrange config now f revision a)
      by_result (err x) (inl p) = absurd p
      by_result (ok snapshot) (inl p) = rw (p.1, p.3, p.4) (refl, refl)
      by_result f (inr p) =
          same-IsConsistent a (perform_sync node arrange config now f revision a) (p.4, p.6, p.7) h

  drained : (a : App J S) → IsConsistent a → IsConsistent (handle_ws_disconnected node a).1
  unfolding handle_ws_disconnected
  drained a h = elim (result-cases (drain_all node a.state_store.last_snapshot a.node_runtime)) [
    | inl (t, e) ↦ rw e refl
    | inr (x, t, e) ↦ rw e h
  ]

  restarted :
      (now : ℕ) (a : App J S)
      → IsConsistent a
      → IsConsistent (restart_node_runtime stop start now a).1
  unfolding restart_node_runtime
  restarted now a h =
      let b = set_node_state "restarting" a in
      let runtime = start (stop b.node_runtime) in
      let c = record b {
        node_runtime = runtime.1;
        state_store = clear_last_snapshot (set_registry_status no_registration b.state_store);
      } in
      let in_b = same-IsConsistent a b (set_node_state-same "restarting" a) h in
      let in_c : IsConsistent c =
        cleared b.state_store.last_snapshot b.state_store.status.streams_registered
          b.state_store.status.protection_mode in_b in
      elim (Bool-cases runtime.0) [
        | inl e ↦
            let d = set_node_state "running" c in
            rw e (
              schedule_sync-IsConsistent now (reconnect_revision d) d
                (same-IsConsistent c d (set_node_state-same "running" c) in_c))
        | inr e ↦
            let d = set_node_state "stopped" c in
            rw e (same-IsConsistent c d (set_node_state-same "stopped" c) in_c)
      ]

  pub loop-same :
      (now : ℕ) (p : Place) (a : App J S) → SameRecord a (sync_loop_step config now p a).1
  unfolding sync_loop_step take_pending
  loop-same now top a = ground arith
  loop-same now (debounce deadline) a = ground arith
  loop-same now delay a = ground arith
  loop-same now (performing revision is_retry) a = (refl, refl, refl)
  loop-same now finished a = (refl, refl, refl)

  loop-IsConsistent :
      (now : ℕ) (p : Place) (a : App J S)
      → IsConsistent a
      → IsConsistent (sync_loop_step config now p a).1
  unfolding sync_loop_step
  loop-IsConsistent now p a h =
      same-IsConsistent a (sync_loop_step config now p a).1 (loop-same now p a) h

  event-IsConsistent :
      (k : Kind) (payload : StreamOf (J.Double) k) (a : App J S)
      → IsConsistent a
      → IsConsistent (handle_stream_event k payload a)
  unfolding handle_stream_event
  event-IsConsistent k payload a h = elim (Bool-cases (is_connected a.ws_client)) [
    | inl e ↦ rw e h
    | inr e ↦ rw e h
  ]

  Step-IsConsistent : (x y : Place × App J S) → Step x y → IsConsistent x.1 → IsConsistent y.1
  unfolding on_snapshot_changed handle_ws_connected report_drain handle_ws_error
      handle_registration_event
  Step-IsConsistent x y (signal now message p a) h =
      let b =
        with_store (λ s. set_last_seen_revision message.revision (mark_snapshot_signal_received s))
          a in
      schedule_sync-IsConsistent now message.revision (record b { force_sync_pending = true }) h
  Step-IsConsistent x y (connected now p a) h =
      let b = report_drain (with_store (set_daemon_state "connected_waiting_snapshot") a) in
      schedule_sync-IsConsistent now (reconnect_revision b) b h
  Step-IsConsistent x y (disconnected p a) h = drained a h
  Step-IsConsistent x y (error message p a) h = h
  Step-IsConsistent x y (registration status p a) h = h
  Step-IsConsistent x y (stream_event k payload p a) h = event-IsConsistent k payload a h
  Step-IsConsistent x y (restart now p a) h = restarted now a h
  Step-IsConsistent x y (request_stop p a) h = h
  Step-IsConsistent x y (loop now p a) h = loop-IsConsistent now p a h
  Step-IsConsistent x y (perform now fetched revision is_retry a) h =
      settled now fetched revision a h

  -- In every state reached from a consistent one by the daemon's handlers and its loop, in any
  -- order: if a last snapshot is kept, the status says that streams are registered exactly if that
  -- snapshot has any, and there is no protection mode; if none is kept, protection mode means that no
  -- stream is registered.
  pub Reachable-IsConsistent :
      (x y : Place × App J S) → IsConsistent x.1 → Reachable x y → IsConsistent y.1
  Reachable-IsConsistent x y h here = h
  Reachable-IsConsistent x y h (further z w r s) =
      Step-IsConsistent z w s (Reachable-IsConsistent x z h r)
