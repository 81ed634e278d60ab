-- ===== src/App/Store.antt =====
-- `StateStore` of src/daemon/state_store.h and state_store.cpp. Every method runs under the store's
-- mutex, so each is one step on its fields.
use nmos_client.Base.{String, Bool, true, false, [], ◌∷◌, Option, none, some, ℤ, pos}
use nmos_client.Json.{Json}
use nmos_client.Dto.Types.{SnapshotDto, RegistrationStatus}
use nmos_client.Dto.Print.{make_object, snapshot_to_json}

pub record StatusSnapshot : Type 0 where
  pub daemon_state : String
  pub node_state : String
  pub last_seen_revision : ℤ
  pub last_applied_revision : ℤ
  pub last_sync_error : String
  pub streams_registered : Bool
  pub protection_mode : Bool
  pub has_received_snapshot_changed : Bool

pub record RegistrySnapshot : Type 0 where
  pub connected : Bool
  pub uri : String
  pub scheme : String
  pub host : String
  pub port : ℤ
  pub version : String

pub record StateStore (D : Type 0) : Type 0 where
  pub status : StatusSnapshot
  pub registry_status : RegistrySnapshot
  pub last_snapshot : Option (SnapshotDto D)
  pub pending_drain_notification : Bool

abbrev pub initial_status : StatusSnapshot
initial_status = record {
  daemon_state = "starting";
  node_state = "stopped";
  last_seen_revision = pos 0;
  last_applied_revision = pos 0;
  last_sync_error = "";
  streams_registered = false;
  protection_mode = false;
  has_received_snapshot_changed = false;
}

abbrev pub initial_registry : RegistrySnapshot
initial_registry = record {
  connected = false;
  uri = "";
  scheme = "";
  host = "";
  port = pos 0;
  version = "";
}

-- nmos_node::RegistrationStatus{}
abbrev pub no_registration : RegistrationStatus
no_registration = record {
  connected = false;
  uri = "";
  scheme = "";
  host = "";
  port = pos 0;
  version = "";
}

module _ {D : Type 0} where
  abbrev pub initial_store : StateStore D
  initial_store = record {
    status = initial_status;
    registry_status = initial_registry;
    last_snapshot = none;
    pending_drain_notification = false;
  }

  abbrev pub set_daemon_state : String → StateStore D → StateStore D
  set_daemon_state state s = record s { status = record s.status { daemon_state = state } }

  abbrev pub set_node_state : String → StateStore D → StateStore D
  set_node_state state s = record s { status = record s.status { node_state = state } }

  abbrev pub set_last_seen_revision : ℤ → StateStore D → StateStore D
  set_last_seen_revision revision s = record s {
    status = record s.status { last_seen_revision = revision };
  }

  abbrev pub mark_snapshot_signal_received : StateStore D → StateStore D
  mark_snapshot_signal_received s = record s {
    status = record s.status { has_received_snapshot_changed = true };
  }

  abbrev pub mark_sync_failed : String → StateStore D → StateStore D
  mark_sync_failed message s = record s { status = record s.status { last_sync_error = message } }

  abbrev pub mark_apply_success : ℤ → SnapshotDto D → Bool → StateStore D → StateStore D
  mark_apply_success applied_revision snapshot streams_registered s = record s {
    status = record s.status {
      last_applied_revision = applied_revision;
      last_seen_revision = applied_revision;
      last_sync_error = "";
      streams_registered = streams_registered;
      protection_mode = false;
      has_received_snapshot_changed = true;
    };
    last_snapshot = some snapshot;
  }

  abbrev pub mark_drained_due_to_ws_disconnect : StateStore D → StateStore D
  mark_drained_due_to_ws_disconnect s = record s {
    status = record s.status { streams_registered = false; protection_mode = true };
    pending_drain_notification = true;
  }

  abbrev pub set_last_snapshot : SnapshotDto D → StateStore D → StateStore D
  set_last_snapshot snapshot s = record s { last_snapshot = some snapshot }

  abbrev pub clear_last_snapshot : StateStore D → StateStore D
  clear_last_snapshot s = record s { last_snapshot = none }

  abbrev pub set_registry_status : RegistrationStatus → StateStore D → StateStore D
  set_registry_status status s = record s {
    registry_status = record {
      connected = status.connected;
      uri = status.uri;
      scheme = status.scheme;
      host = status.host;
      port = status.port;
      version = status.version;
    };
  }

  -- The value that is returned and the store afterwards.
  abbrev pub consume_pending_drain_notification : StateStore D → Bool × StateStore D
  consume_pending_drain_notification s =
      (s.pending_drain_notification, record s { pending_drain_notification = false })

module _ (J : Json) where
  open J use {Double, Value, string, number, boolean, null}

  unfoldable pub status_json : StateStore Double → Value
  status_json s = make_object J (
      ("daemon_state", string s.status.daemon_state)
      ∷ ("node_state", string s.status.node_state)
      ∷ ("last_seen_revision", number s.status.last_seen_revision)
      ∷ ("last_applied_revision", number s.status.last_applied_revision)
      ∷ ("last_sync_error", string s.status.last_sync_error)
      ∷ ("streams_registered", boolean s.status.streams_registered)
      ∷ ("protection_mode", boolean s.status.protection_mode)
      ∷ ("has_received_snapshot_changed", boolean s.status.has_received_snapshot_changed)
      ∷ (
        "registry",
        make_object J (
            ("connected", boolean s.registry_status.connected)
            ∷ ("uri", string s.registry_status.uri)
            ∷ ("scheme", string s.registry_status.scheme)
            ∷ ("host", string s.registry_status.host)
            ∷ ("port", number s.registry_status.port)
            ∷ ("version", string s.registry_status.version)
            ∷ []),
      )
      ∷ [])

  abbrev snapshot_or_null : Option (SnapshotDto Double) → Value
  snapshot_or_null none = null
  snapshot_or_null (some snapshot) = snapshot_to_json J snapshot

  unfoldable pub snapshot_json : StateStore Double → Value
  unfolding snapshot_to_json
  snapshot_json s = snapshot_or_null s.last_snapshot
