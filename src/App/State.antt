-- ===== src/App/State.antt =====
-- The members of `App` of src/daemon/app.h that the synchronisation uses. A time is a number of
-- milliseconds, 0 for `time_point{}`; `S` is the state of the node runtime. `send_queue` holds what
-- `WsClient::send_json` has queued, last message last, as the JSON values before they are
-- serialised.
use nmos_client.Base.{
  ℕ, String, Bool, false, List, [], ◌∷◌, ◌++◌, Option, none, some, ℤ, if◌then◌else◌, ◌+◌, ◌-◌,
  pos_part, neg_part,
}
use nmos_client.Json.{Json}
use nmos_client.App.Store.{StateStore}

pub record WsClient (Value : Type 0) : Type 0 where
  pub connected : Bool
  pub send_queue : List Value

pub record App (J : Json) (S : Type 0) : Type 0 where
  pub stop_requested : Bool
  pub state_store : StateStore (J.Double)
  pub node_runtime : S
  pub ws_client : Option (WsClient (J.Value))
  pub sync_pending : Bool
  pub force_sync_pending : Bool
  pub pending_revision : ℤ
  pub last_signal_time : ℕ
  pub next_sync_not_before : ℕ
  pub last_node_state : String

-- The two settings of `DaemonConfig` that the synchronisation reads.
pub record DaemonConfig : Type 0 where
  pub snapshot_debounce_ms : ℤ
  pub reconnect_interval_ms : ℤ

-- A time and a number of milliseconds; no time is before that of `time_point{}`.
abbrev pub after_ms : ℕ → ℤ → ℕ
after_ms time interval = time + pos_part interval - neg_part interval

module _ {Value : Type 0} where
  abbrev pub is_connected : Option (WsClient Value) → Bool
  is_connected none = false
  is_connected (some w) = w.connected

  -- `if (ws_client_) ws_client_->send_json(message)`
  abbrev pub queue_message : Value → Option (WsClient Value) → Option (WsClient Value)
  queue_message message none = none
  queue_message message (some w) =
      if w.connected then some (record w { send_queue = w.send_queue ++ message ∷ [] }) else some w

module _ {J : Json} {S : Type 0} where
  open J use {Double, Value}

  abbrev pub with_store : (StateStore Double → StateStore Double) → App J S → App J S
  with_store f a = record a { state_store = f a.state_store }

  abbrev pub send_json : Value → App J S → App J S
  send_json message a = record a { ws_client = queue_message message a.ws_client }
