-- ===== src/Dto/Reading.antt =====
-- What the readers of src/daemon/dto.cpp make of what its printers print.
use nmos_client.Base.{
  ℤ, List, String, false, [], ◌∷◌, ◌++◌, none, ok, err, ◌≡◌, refl, ◌==◌, string_eq,
}
use nmos_client.Json.{Json}
use nmos_client.Dto.Types.{SnapshotDto, SyncFailedMessage}
use nmos_client.Dto.Fields.{
  require_field, require_object_value, require_array_field, field_path, invalid_field_error,
}
use nmos_client.Dto.Print.{senders_fields, snapshot_fields, make_object, snapshot_to_json}
use nmos_client.Dto.Messages.{
  make_node_lifecycle_message, make_sync_failed_message, make_streams_drained_message,
}
use nmos_client.Dto.Snapshot.{snapshot_from_json, snapshot_changed_message_from_json}
use nmos_client.Dto.Objects.{
  whole, AtName, string_field, at-whole, has_field-whole, is_object-make_object,
}
use nmos_client.Dto.Nested.{no_skip}

module _ (J : Json) where
  open J use {Double, Value, string, number, is_array-object}

  -- The debug form of a snapshot is no input: reading what `snapshot_to_json` prints throws, whatever
  -- the snapshot, because `senders` is printed as an object and read as an array.
  pub snapshot-refused :
      (junk : String → ℤ) (s : SnapshotDto Double)
      → snapshot_from_json J junk (snapshot_to_json J s)
        ≡ err "invalid JSON field 'senders': expected array: not an array"
  unfolding snapshot_from_json snapshot_to_json require_object_value require_array_field
      require_field invalid_field_error field_path
  snapshot-refused junk s =
      let fields = snapshot_fields J s in
      rw (
        is_object-make_object J fields,
        has_field-whole J fields [] [] "senders" (no_skip J "senders") (refl, refl),
        at-whole J fields [] [] "senders" (no_skip J "senders") (refl, refl),
        is_array-object (make_object J (senders_fields J s))
            (is_object-make_object J (senders_fields J s)),
      )

  -- A message of another type is none.
  ignored :
      (fields : List (String × Value)) (kind : String)
      → AtName J fields [] [] "type" (string kind)
      → (kind == "data.changed") ≡ false
      → snapshot_changed_message_from_json J (whole J fields [] []) ≡ ok none
  unfolding snapshot_changed_message_from_json
  ignored fields kind p q = rw (
    is_object-make_object J (fields ++ ([] ++ [])),
    has_field-whole J fields [] [] "type" (no_skip J "type") p,
    string_field J fields [] [] "type" kind "" "" (no_skip J "type") p,
    q,
  )

  -- The three messages that the daemon sends of itself are not taken for an announcement of a change
  -- if they come back: the reader answers none for each.
  pub messages-ignored :
      (old_state new_state : String) (m : SyncFailedMessage)
      → (snapshot_changed_message_from_json J (make_node_lifecycle_message J old_state new_state)
          ≡ ok none)
        × (snapshot_changed_message_from_json J (make_sync_failed_message J m) ≡ ok none)
        × (snapshot_changed_message_from_json J (make_streams_drained_message J) ≡ ok none)
  unfolding make_node_lifecycle_message make_sync_failed_message make_streams_drained_message
  messages-ignored old_state new_state m = (
    ignored
        (("type", string "node.lifecycle_changed")
          ∷ (
            "payload",
            make_object J (("old_state", string old_state) ∷ ("new_state", string new_state) ∷ []),
          )
          ∷ [])
        "node.lifecycle_changed" (refl, refl) refl,
    ignored
        (("type", string "sync.failed")
          ∷ ("revision", number m.revision)
          ∷ ("message", string m.message)
          ∷ [])
        "sync.failed" (refl, refl) refl,
    ignored
        (("type", string "streams.drained_due_to_ws_disconnect")
          ∷ ("message", string "WebSocket disconnected, all registered senders/receivers removed")
          ∷ [])
        "streams.drained_due_to_ws_disconnect" (refl, refl) refl,
  )
