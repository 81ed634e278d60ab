-- ===== src/App/Connection.antt =====
-- The WebSocket handlers of src/daemon/app.cpp.
use nmos_client.Base.{
  ◌∙◌, Bool-cases, sym, Bool, ◌∷◌, [], ◌&&◌, List, ◌++◌, ℕ, String, true, false, Option, none, some,
  Except, ok, ℤ, ◌≡◌, refl, ap, inl, inr, arith, if◌then◌else◌,
}
use mathlib.Core.List.{append-nil}
use nmos_client.Base.Exec.{result-cases}
use nmos_client.Json.{Json}
use nmos_client.Dto.Types.{SnapshotDto}
use nmos_client.Dto.Messages.{make_streams_drained_message}
use nmos_client.Reconcile.Kind.{Kind, StreamOf, id_of, streams}
use nmos_client.Reconcile.Runtime.{NodeOps, IsRuntime}
use nmos_client.Reconcile.Engine.{drain_all}
use nmos_client.Reconcile.Drain.{occurs, drain_all-view}
use nmos_client.App.State.{is_connected, WsClient, App, with_store, queue_message}
use nmos_client.App.Store.{StateStore, set_daemon_state}
use nmos_client.App.Handlers.{
  report_drain, handle_ws_connected, handle_ws_disconnected, schedule_sync, reconnect_revision,
}

-- The messages that wait to be sent.
abbrev pub queued : {V : Type 0} → Option (WsClient V) → List V
queued none = []
queued (some w) = w.send_queue

module _ {J : Json} {S : Type 0} where
  schedule_sync-queue :
      (now : ℕ) (revision : ℤ) (a : App J S)
      → ((schedule_sync now revision a).ws_client ≡ a.ws_client)
        × ((schedule_sync now revision a).state_store ≡ a.state_store)
  unfolding schedule_sync
  schedule_sync-queue now revision a = ground arith

  -- `handle_ws_connected` puts the message about drained streams at the end of the send queue if and
  -- only if a drain has not been reported yet and the client is connected, puts no other message
  -- there, keeps the client's connection, and afterwards nothing is left to report.
  pub handle_ws_connected-reports :
      (now : ℕ) (a : App J S)
      → (queued (handle_ws_connected now a).ws_client ≡ (
          queued a.ws_client
          ++ (if a.state_store.pending_drain_notification && is_connected a.ws_client
              then make_streams_drained_message J ∷ []
              else [])))
        × (is_connected (handle_ws_connected now a).ws_client ≡ is_connected a.ws_client)
        × ((handle_ws_connected now a).state_store.pending_drain_notification ≡ false)
  unfolding handle_ws_connected report_drain
  handle_ws_connected-reports now a =
      let b = report_drain (with_store (set_daemon_state "connected_waiting_snapshot") a) in
      let (queue, store) = schedule_sync-queue now (reconnect_revision b) b in
      let (m, c) = reported a.state_store.pending_drain_notification a.ws_client in
      (
        ap queued queue ∙ m,
        ap is_connected queue ∙ c,
        ap (λ (s : StateStore (J.Double)). s.pending_drain_notification) store,
      )
    where
      reported :
          (owed : Bool) (w : Option (WsClient (J.Value)))
          → (queued (if owed then queue_message (make_streams_drained_message J) w else w) ≡ (
              queued w
              ++ (if owed && is_connected w then make_streams_drained_message J ∷ [] else [])))
            × (is_connected (if owed then queue_message (make_streams_drained_message J) w else w)
                ≡ is_connected w)
      reported true none = (refl, refl)
      reported false none = (refl, refl)
      reported false (some w) = (sym (append-nil w.send_queue), refl)
      reported true (some w) = elim (Bool-cases w.connected) [
        | inl e ↦ rw e (refl, refl)
        | inr e ↦ rw e (sym (append-nil w.send_queue), refl)
      ]

  module _ (node : NodeOps (J.Double) S) where
    -- Where `handle_ws_disconnected` returns, the daemon is in protection mode with no stream
    -- registered, keeps no snapshot, and owes the backend a report; the runtime is what `drain_all`
    -- of the last snapshot left.
    pub handle_ws_disconnected-drains :
        (a b : App J S)
        → handle_ws_disconnected node a ≡ (ok tt, b)
        → (drain_all node a.state_store.last_snapshot a.node_runtime ≡ (ok tt, b.node_runtime))
          × (b.state_store.status.protection_mode ≡ true)
          × (b.state_store.status.streams_registered ≡ false)
          × (b.state_store.last_snapshot ≡ none)
          × (b.state_store.pending_drain_notification ≡ true)
    unfolding handle_ws_disconnected
    handle_ws_disconnected-drains a b h =
        elim (result-cases (drain_all node a.state_store.last_snapshot a.node_runtime)) [
          | inl (t, e) ↦
              let p = ap (λ (r : Except (Unit {0}) × App J S). r.1) (rw e at h) in
              rw (e, ← p) (refl, refl, refl, refl, refl)
          | inr (x, t, e) ↦ absurd (cc (ap (λ (r : Except (Unit {0}) × App J S). r.0) (rw e at h)))
        ]

    -- After a disconnection whose handler returned, on a node that keeps its contract, no stream of
    -- the last applied snapshot is held under any of the six kinds; every other stream is held as
    -- before.
    pub handle_ws_disconnected-view :
        (view : (k : Kind) → S → String → Option (StreamOf (J.Double) k))
        (runtime : IsRuntime node view) (a b : App J S) (snapshot : SnapshotDto (J.Double))
        → a.state_store.last_snapshot ≡ some snapshot
        → handle_ws_disconnected node a ≡ (ok tt, b)
        → (k : Kind) (j : String)
        → view k b.node_runtime j ≡ (
            if occurs (id_of (J.Double) k) j (streams (J.Double) k snapshot)
            then none
            else view k a.node_runtime j)
    handle_ws_disconnected-view view runtime a b snapshot p h k j =
        drain_all-view node view runtime snapshot a.node_runtime b.node_runtime
          (rw (← p) (handle_ws_disconnected-drains a b h).0) k j
