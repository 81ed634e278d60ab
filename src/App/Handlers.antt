-- ===== src/App/Handlers.antt =====
-- The methods of `App` in src/daemon/app.cpp that synchronise: what the clock says, what
-- `fetch_snapshot` gives and the runtime are arguments.
use nmos_client.Base.{
  ℕ, String, Bool, true, not, ◌&&◌, ◌||◌, Except, ok, err, ℤ, pos, ltb_ℤ, leb_ℤ, if◌then◌else◌,
}
use nmos_client.Base.Exec.{Exec, ◌>>◌}
use nmos_client.Json.{Json}
use nmos_client.Dto.Types.{SnapshotDto, RegistrationStatus, SnapshotChangedMessage}
use nmos_client.Dto.Snapshot.{has_any_streams}
use nmos_client.Dto.Messages.{
  make_sync_failed_message, make_streams_drained_message, make_node_lifecycle_message,
  make_sender_video_observed_changed_message, make_sender_audio_observed_changed_message,
  make_sender_ancillary_observed_changed_message, make_receiver_video_observed_changed_message,
  make_receiver_audio_observed_changed_message, make_receiver_ancillary_observed_changed_message,
}
use nmos_client.Reconcile.Kind.{
  Kind, StreamOf, video_receiver, audio_receiver, ancillary_receiver, video_sender, audio_sender,
  ancillary_sender,
}
use nmos_client.Reconcile.Runtime.{NodeOps}
use nmos_client.Reconcile.Engine.{Order, apply_snapshot, drain_all}
use nmos_client.App.Store.{
  set_daemon_state, set_last_seen_revision, mark_snapshot_signal_received, mark_sync_failed,
  mark_apply_success, mark_drained_due_to_ws_disconnect, clear_last_snapshot, set_registry_status,
  consume_pending_drain_notification, no_registration,
}
use nmos_client.App.Store.{set_node_state as store_node_state}
use nmos_client.App.State.{
  App, DaemonConfig, after_ms, with_store, is_connected, send_json, queue_message,
}

-- The bound that the source keeps for the pending revision.
abbrev pub raise : ℤ → ℤ → ℤ
raise revision pending = if ltb_ℤ pending revision then revision else pending

module _ (J : Json) where
  abbrev pub observed_message : (k : Kind) → StreamOf (J.Double) k → J.Value
  unfolding make_sender_video_observed_changed_message make_sender_audio_observed_changed_message
      make_sender_ancillary_observed_changed_message make_receiver_video_observed_changed_message
      make_receiver_audio_observed_changed_message make_receiver_ancillary_observed_changed_message
  observed_message video_receiver = make_receiver_video_observed_changed_message J
  observed_message audio_receiver = make_receiver_audio_observed_changed_message J
  observed_message ancillary_receiver = make_receiver_ancillary_observed_changed_message J
  observed_message video_sender = make_sender_video_observed_changed_message J
  observed_message audio_sender = make_sender_audio_observed_changed_message J
  observed_message ancillary_sender = make_sender_ancillary_observed_changed_message J

module _ {J : Json} {S : Type 0} where
  open J use {Double, double_eq}

  abbrev pub needs_resync_without_newer_revision : App J S → Bool
  needs_resync_without_newer_revision a =
      a.state_store.status.protection_mode || not a.state_store.status.streams_registered

  unfoldable pub schedule_sync : ℕ → ℤ → App J S → App J S
  schedule_sync now revision a =
      if not a.force_sync_pending
        && (leb_ℤ revision a.state_store.status.last_applied_revision
            && not (needs_resync_without_newer_revision a))
      then a
      else record a {
        sync_pending = true;
        pending_revision = raise revision a.pending_revision;
        last_signal_time = now;
        next_sync_not_before = 0;
      }

  -- The callback `on_snapshot_changed` that `run` installs.
  unfoldable pub on_snapshot_changed : ℕ → SnapshotChangedMessage → App J S → App J S
  unfolding schedule_sync
  on_snapshot_changed now message a =
      schedule_sync now message.revision
        (record (with_store
          (λ s. set_last_seen_revision message.revision (mark_snapshot_signal_received s)) a) {
            force_sync_pending = true;
          })

  abbrev pub reconnect_revision : App J S → ℤ
  reconnect_revision a =
      if ltb_ℤ (pos 0) a.state_store.status.last_seen_revision
      then a.state_store.status.last_seen_revision
      else pos 1

  -- `if (consume_pending_drain_notification() && ws_client_) send_json(...)`
  unfoldable pub report_drain : App J S → App J S
  report_drain a =
      let (pending, store) = consume_pending_drain_notification a.state_store in
      record a {
        state_store = store;
        ws_client =
            if pending
            then queue_message (make_streams_drained_message J) a.ws_client
            else a.ws_client;
      }

  unfoldable pub handle_ws_connected : ℕ → App J S → App J S
  unfolding schedule_sync report_drain
  handle_ws_connected now a =
      let b = report_drain (with_store (set_daemon_state "connected_waiting_snapshot") a) in
      schedule_sync now (reconnect_revision b) b

  unfoldable pub handle_ws_error : String → App J S → App J S
  handle_ws_error message a = with_store (mark_sync_failed message) a

  unfoldable pub handle_registration_event : RegistrationStatus → App J S → App J S
  handle_registration_event status a = with_store (set_registry_status status) a

  -- `handle_sender_event` and `handle_receiver_event`
  unfoldable pub handle_stream_event : (k : Kind) → StreamOf Double k → App J S → App J S
  unfolding make_sender_video_observed_changed_message make_sender_audio_observed_changed_message
      make_sender_ancillary_observed_changed_message make_receiver_video_observed_changed_message
      make_receiver_audio_observed_changed_message make_receiver_ancillary_observed_changed_message
  handle_stream_event k payload a =
      if not (is_connected a.ws_client) then a else send_json (observed_message J k payload) a

  unfoldable pub set_node_state : String → App J S → App J S
  unfolding make_node_lifecycle_message
  set_node_state state a =
      let b = with_store (store_node_state state) a in
      let c =
        if is_connected b.ws_client
        then send_json (make_node_lifecycle_message J b.last_node_state state) b
        else b in
      record c { last_node_state = state }

  -- A call on the runtime, as a step of the daemon.
  abbrev pub on_runtime : Exec S (Unit {0}) → Exec (App J S) (Unit {0})
  on_runtime m a = ((m a.node_runtime).0, record a { node_runtime = (m a.node_runtime).1 })

  abbrev pub step : (App J S → App J S) → Exec (App J S) (Unit {0})
  step f a = (ok tt, f a)

  module _ (node : NodeOps Double S) where
    -- Where `drain_all` throws, the exception leaves the handler.
    unfoldable pub handle_ws_disconnected : Exec (App J S) (Unit {0})
    unfolding drain_all
    handle_ws_disconnected a =
        (do
          step (with_store (set_daemon_state "draining"))
          on_runtime (drain_all node a.state_store.last_snapshot)
          step (with_store mark_drained_due_to_ws_disconnect)
          step (with_store clear_last_snapshot)
          step (with_store (set_daemon_state "degraded")))
          a

    module _ (arrange : (k : Kind) → Order (StreamOf Double k)) (config : DaemonConfig) where
      -- The `try` block. `fetched` is what `fetch_snapshot` returned or threw.
      abbrev pub try_sync : Except (SnapshotDto Double) → ℤ → Exec (App J S) (Unit {0})
      try_sync (err e) revision a = (err e, a)
      try_sync (ok snapshot) revision a =
          (do
            on_runtime (apply_snapshot double_eq node arrange a.state_store.last_snapshot snapshot)
            step (with_store (mark_apply_success revision snapshot (has_any_streams snapshot)))
            step (with_store (set_daemon_state "running")))
            a

      -- The `catch` block.
      abbrev pub sync_failed : ℕ → ℤ → String → App J S → App J S
      sync_failed now revision message a =
          let b = with_store (λ s. set_daemon_state "degraded" (mark_sync_failed message s)) a in
          let c =
            if is_connected b.ws_client
            then send_json
                (make_sync_failed_message J record { revision = revision; message = message }) b
            else b in
          record c {
            sync_pending = true;
            pending_revision = raise revision c.pending_revision;
            last_signal_time = now;
            next_sync_not_before = after_ms now config.reconnect_interval_ms;
          }

      abbrev pub finish_sync : ℕ → ℤ → Except (Unit {0}) → App J S → App J S
      finish_sync now revision (ok u) a = a
      finish_sync now revision (err message) a = sync_failed now revision message a

      unfoldable pub perform_sync : ℕ → Except (SnapshotDto Double) → ℤ → App J S → App J S
      perform_sync now fetched revision a =
          if a.stop_requested
          then a
          else (let r = try_sync fetched revision (with_store (set_daemon_state "resyncing") a) in
              finish_sync now revision r.0 r.1)

  -- `stop` and `start` are the runtime's: `start` answers whether it came up. The runtime is there, so
  -- the first test of the source is left out.
  unfoldable pub restart_node_runtime : (S → S) → (S → Bool × S) → ℕ → Exec (App J S) (Unit {0})
  unfolding set_node_state schedule_sync
  restart_node_runtime stop start now a =
      let b = set_node_state "restarting" a in
      let c = record b { node_runtime = stop b.node_runtime } in
      let d = with_store (λ s. clear_last_snapshot (set_registry_status no_registration s)) c in
      let (started, runtime) = start d.node_runtime in
      let e = record d { node_runtime = runtime } in
      if started
      then (let f = set_node_state "running" e in
          (ok tt, schedule_sync now (reconnect_revision f) f))
      else (err "failed to restart node runtime with updated config", set_node_state "stopped" e)
