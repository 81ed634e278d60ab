-- ===== src/Dto/Snapshot.antt =====
-- `snapshot_from_json` and `snapshot_changed_message_from_json` of src/daemon/dto.cpp. `junk` gives
-- the value of the uninitialised `port` of each stream that is read, by the path of the stream.
use nmos_client.Base.{
  ℕ, suc, String, Bool, not, ◌||◌, ◌&&◌, ℤ, pos, List, [], ◌∷◌, ◌++◌, Option, none, some, Except,
  ok, ◌>>=◌, ◌>>◌, ◌==◌, string_eq, if◌then◌else◌, is_empty,
}
use nmos_client.Json.{Json}
use nmos_client.Dto.Types.{SnapshotDto, SnapshotChangedMessage, DeviceDto, Entry}
use nmos_client.Dto.Fields.{
  field_path, index_path, require_object_value, require_array_field, get_string_or, get_int64_or,
}
use nmos_client.Dto.Parse.{
  video_sender_from_json, audio_sender_from_json, ancillary_sender_from_json,
  video_receiver_from_json, audio_receiver_from_json, ancillary_receiver_from_json,
  device_from_json,
}
use nmos_client.Dto.Ptp.{ptp_entries_from_json}

abbrev pub empty_snapshot : {D : Type 0} → SnapshotDto D
empty_snapshot = record {
  ptp_clock = record { entries = [] };
  devices = [];
  video_senders = [];
  audio_senders = [];
  ancillary_senders = [];
  video_receivers = [];
  audio_receivers = [];
  ancillary_receivers = [];
}

unfoldable pub has_any_streams : {D : Type 0} → SnapshotDto D → Bool
has_any_streams s =
    not (is_empty s.video_senders)
    || (not (is_empty s.audio_senders)
        || (not (is_empty s.ancillary_senders)
            || (not (is_empty s.video_receivers)
                || (not (is_empty s.audio_receivers) || not (is_empty s.ancillary_receivers)))))

module _ (J : Json) (junk : String → ℤ) where
  open J use {Double, Value, is_object, is_null, has_field, at, as_array}

  abbrev Snapshot : Type 0
  Snapshot = SnapshotDto Double

  -- One kind of stream of an element of `senders` or `receivers`: read `o[kind]` if it is there.
  unfoldable pub optional_stream :
      {A : Type 0}
      → (ℤ → Value → String → Except A)
      → String
      → Value
      → String
      → List A
      → Except (List A)
  unfolding require_object_value field_path
  optional_stream read kind o path streams =
      if has_field o kind
      then (do
        v ← require_object_value J (at o kind) (field_path path kind)
        stream ← read (junk (field_path path kind)) v (field_path path kind)
        ok (streams ++ stream ∷ []))
      else ok streams

  unfoldable pub add_sender : Snapshot → ℕ → Value → Except Snapshot
  unfolding require_object_value index_path optional_stream
  add_sender s index sender = do
    o ← require_object_value J sender (index_path "senders" index)
    video ←
        optional_stream (video_sender_from_json J) "video" o (index_path "senders" index)
          s.video_senders
    audio ←
        optional_stream (audio_sender_from_json J) "audio" o (index_path "senders" index)
          s.audio_senders
    ancillary ←
        optional_stream (ancillary_sender_from_json J) "ancillary" o (index_path "senders" index)
          s.ancillary_senders
    ok (record s { video_senders = video; audio_senders = audio; ancillary_senders = ancillary })

  unfoldable pub add_senders : Snapshot → ℕ → List Value → Except Snapshot
  add_senders s index [] = ok s
  add_senders s index (sender ∷ senders) =
      add_sender s index sender >>= λ s'. add_senders s' (suc index) senders

  unfoldable pub add_receiver : Snapshot → ℕ → Value → Except Snapshot
  unfolding require_object_value index_path optional_stream
  add_receiver s index receiver = do
    o ← require_object_value J receiver (index_path "receivers" index)
    video ←
        optional_stream (video_receiver_from_json J) "video" o (index_path "receivers" index)
          s.video_receivers
    audio ←
        optional_stream (audio_receiver_from_json J) "audio" o (index_path "receivers" index)
          s.audio_receivers
    ancillary ←
        optional_stream (ancillary_receiver_from_json J) "ancillary" o
          (index_path "receivers" index) s.ancillary_receivers
    ok (record s {
      video_receivers = video;
      audio_receivers = audio;
      ancillary_receivers = ancillary;
    })

  unfoldable pub add_receivers : Snapshot → ℕ → List Value → Except Snapshot
  add_receivers s index [] = ok s
  add_receivers s index (receiver ∷ receivers) =
      add_receiver s index receiver >>= λ s'. add_receivers s' (suc index) receivers

  unfoldable pub devices_from : ℕ → List Value → Except (List DeviceDto)
  unfolding index_path
  devices_from index [] = ok []
  devices_from index (device ∷ devices) =
      let rest = devices_from (suc index) devices in
      if is_object device
      then (do d ← device_from_json J device (index_path "devices" index); ds ← rest; ok (d ∷ ds))
      else rest

  unfoldable pub ptp_field : Value → Except (List (Entry Double))
  ptp_field root =
      if has_field root "ptp_clock"
      then ptp_entries_from_json J (at root "ptp_clock") "ptp_clock"
      else ok []

  unfoldable pub devices_field : Value → Except (List DeviceDto)
  unfolding require_array_field devices_from
  devices_field root =
      if has_field root "devices" && not (is_null (at root "devices"))
      then (do devices ← require_array_field J root "devices" ""; devices_from 0 (as_array devices))
      else ok []

  unfoldable pub snapshot_from_json : Value → Except Snapshot
  unfolding require_object_value require_array_field ptp_field devices_field
  snapshot_from_json root = do
    require_object_value J root "snapshot"
    senders ← require_array_field J root "senders" ""
    receivers ← require_array_field J root "receivers" ""
    entries ← ptp_field root
    devices ← devices_field root
    s ←
        add_senders
          (record empty_snapshot { ptp_clock = record { entries = entries }; devices = devices }) 0
          (as_array senders)
    add_receivers s 0 (as_array receivers)

module _ (J : Json) where
  open J use {Value, is_object, has_field}

  unfoldable pub snapshot_changed_message_from_json : Value → Except (Option SnapshotChangedMessage)
  snapshot_changed_message_from_json root =
      if not (is_object root) || not (has_field root "type") then ok none else do
        kind ← get_string_or J root "type" "" ""
        if not (kind == "data.changed") then ok none else (do
          revision ← get_int64_or J root "revision" (pos 0) ""
          reason ← get_string_or J root "reason" "" ""
          ok (some (record { revision = revision; reason = reason })))
