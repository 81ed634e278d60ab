-- ===== src/Dto/Print.antt =====
-- The `*_to_json` functions of src/daemon/dto.cpp. Each assigns the fields of a new object in the
-- order of the source.
use nmos_client.Base.{String, Bool, not, ◌||◌, List, [], ◌∷◌, ◌++◌, map, if◌then◌else◌, is_empty}
use nmos_client.Json.{Json}
use nmos_client.Dto.Types.{
  Redudancy, VideoSender, AudioSender, AncillarySender, VideoReceiverCaps, VideoReceiver,
  AudioReceiver, AncillaryReceiver, Entry, DeviceDto, SnapshotDto,
}

module _ (J : Json) where
  open J use {Double, Value, object, set, array, string, number, number_double, boolean}

  -- `object[k] = v;` for each field in turn.
  unfoldable pub assign_all : Value → List (String × Value) → Value
  assign_all o [] = o
  assign_all o ((k, v) ∷ fields) = assign_all (set o k v) fields

  unfoldable pub make_object : List (String × Value) → Value
  unfolding assign_all
  make_object fields = assign_all object fields

  abbrev pub string_vector_to_json : List String → Value
  string_vector_to_json items = array (map string items)

  abbrev pub vector_to_json : {A : Type 0} → (A → Value) → List A → Value
  vector_to_json mapper items = array (map mapper items)

  unfoldable pub redudancy_to_json : Redudancy → Value
  redudancy_to_json s = make_object (
      ("enable", boolean s.enable)
      ∷ ("source_ip", string s.source_ip)
      ∷ ("ip", string s.ip)
      ∷ ("port", number s.port)
      ∷ [])

  -- `if (stream.redudancy.present) object["redudancy"] = redudancy_to_json(stream.redudancy);`
  abbrev pub redudancy_fields : Redudancy → List (String × Value)
  redudancy_fields r = if r.present then ("redudancy", redudancy_to_json r) ∷ [] else []

  unfoldable pub caps_to_json : VideoReceiverCaps → Value
  caps_to_json s = make_object (
      ("formats", string_vector_to_json s.formats)
      ∷ ("colorspaces", string_vector_to_json s.colorspaces)
      ∷ ("transfer_characteristics", string_vector_to_json s.transfer_characteristics)
      ∷ [])

  abbrev pub has_caps : VideoReceiverCaps → Bool
  has_caps caps =
      not (is_empty caps.formats)
      || (not (is_empty caps.colorspaces) || not (is_empty caps.transfer_characteristics))

  abbrev pub caps_fields : VideoReceiverCaps → List (String × Value)
  caps_fields caps = if has_caps caps then ("caps", caps_to_json caps) ∷ [] else []

  abbrev pub video_sender_first : VideoSender → List (String × Value)
  video_sender_first s =
      ("id", string s.id)
      ∷ ("sender_id", string s.sender_id)
      ∷ ("name", string s.name)
      ∷ ("enable", boolean s.enable)
      ∷ ("video_format", string s.video_format)
      ∷ ("colorspace", string s.colorspace)
      ∷ ("transfer_characteristics", string s.transfer_characteristics)
      ∷ ("source_ip", string s.source_ip)
      ∷ ("ip", string s.ip)
      ∷ ("port", number s.port)
      ∷ []

  abbrev pub video_sender_last : VideoSender → List (String × Value)
  video_sender_last s = ("pg_format", number s.pg_format) ∷ []

  abbrev pub video_sender_fields : VideoSender → List (String × Value)
  video_sender_fields s =
      video_sender_first s ++ (redudancy_fields s.redudancy ++ video_sender_last s)

  unfoldable pub video_sender_to_json : VideoSender → Value
  video_sender_to_json s = make_object (video_sender_fields s)

  abbrev pub audio_sender_first : AudioSender → List (String × Value)
  audio_sender_first s =
      ("id", string s.id)
      ∷ ("sender_id", string s.sender_id)
      ∷ ("name", string s.name)
      ∷ ("enable", boolean s.enable)
      ∷ ("channel_count", number s.channel_count)
      ∷ ("bit_depth", number s.bit_depth)
      ∷ ("sample_rate", number s.sample_rate)
      ∷ ("source_ip", string s.source_ip)
      ∷ ("ip", string s.ip)
      ∷ ("port", number s.port)
      ∷ []

  abbrev pub audio_sender_fields : AudioSender → List (String × Value)
  audio_sender_fields s = audio_sender_first s ++ (redudancy_fields s.redudancy ++ [])

  unfoldable pub audio_sender_to_json : AudioSender → Value
  audio_sender_to_json s = make_object (audio_sender_fields s)

  abbrev pub ancillary_sender_first : AncillarySender → List (String × Value)
  ancillary_sender_first s =
      ("id", string s.id)
      ∷ ("sender_id", string s.sender_id)
      ∷ ("name", string s.name)
      ∷ ("format", string s.format)
      ∷ ("enable", boolean s.enable)
      ∷ ("source_ip", string s.source_ip)
      ∷ ("ip", string s.ip)
      ∷ ("port", number s.port)
      ∷ []

  abbrev pub ancillary_sender_fields : AncillarySender → List (String × Value)
  ancillary_sender_fields s = ancillary_sender_first s ++ (redudancy_fields s.redudancy ++ [])

  unfoldable pub ancillary_sender_to_json : AncillarySender → Value
  ancillary_sender_to_json s = make_object (ancillary_sender_fields s)

  abbrev pub video_receiver_first : VideoReceiver → List (String × Value)
  video_receiver_first s =
      ("id", string s.id)
      ∷ ("name", string s.name)
      ∷ ("enable", boolean s.enable)
      ∷ ("source_ip", string s.source_ip)
      ∷ ("ip", string s.ip)
      ∷ ("port", number s.port)
      ∷ []

  abbrev pub video_receiver_last : VideoReceiver → List (String × Value)
  video_receiver_last s =
      ("format", string s.format)
      ∷ ("colorspace", string s.colorspace)
      ∷ ("transfer_characteristics", string s.transfer_characteristics)
      ∷ []

  abbrev pub video_receiver_fields : VideoReceiver → List (String × Value)
  video_receiver_fields s =
      video_receiver_first s
      ++ ((redudancy_fields s.redudancy ++ caps_fields s.caps) ++ video_receiver_last s)

  unfoldable pub video_receiver_to_json : VideoReceiver → Value
  video_receiver_to_json s = make_object (video_receiver_fields s)

  abbrev pub audio_receiver_first : (AudioReceiver Double) → List (String × Value)
  audio_receiver_first s =
      ("id", string s.id)
      ∷ ("name", string s.name)
      ∷ ("enable", boolean s.enable)
      ∷ ("channel_count", number s.channel_count)
      ∷ ("bit_depth", number s.bit_depth)
      ∷ ("sample_rate", number s.sample_rate)
      ∷ ("packet_time", number_double s.packet_time)
      ∷ ("source_ip", string s.source_ip)
      ∷ ("ip", string s.ip)
      ∷ ("port", number s.port)
      ∷ []

  abbrev pub audio_receiver_fields : (AudioReceiver Double) → List (String × Value)
  audio_receiver_fields s = audio_receiver_first s ++ (redudancy_fields s.redudancy ++ [])

  unfoldable pub audio_receiver_to_json : (AudioReceiver Double) → Value
  audio_receiver_to_json s = make_object (audio_receiver_fields s)

  abbrev pub ancillary_receiver_first : AncillaryReceiver → List (String × Value)
  ancillary_receiver_first s =
      ("id", string s.id)
      ∷ ("name", string s.name)
      ∷ ("format", string s.format)
      ∷ ("enable", boolean s.enable)
      ∷ ("source_ip", string s.source_ip)
      ∷ ("ip", string s.ip)
      ∷ ("port", number s.port)
      ∷ []

  abbrev pub ancillary_receiver_fields : AncillaryReceiver → List (String × Value)
  ancillary_receiver_fields s = ancillary_receiver_first s ++ (redudancy_fields s.redudancy ++ [])

  unfoldable pub ancillary_receiver_to_json : AncillaryReceiver → Value
  ancillary_receiver_to_json s = make_object (ancillary_receiver_fields s)

  abbrev pub ptp_entry_fields : Entry Double → List (String × Value)
  ptp_entry_fields s =
      ("clock_accuracy", number s.clock_accuracy)
      ∷ ("clock_class", number s.clock_class)
      ∷ ("grandmaster_identity", string s.grandmaster_identity)
      ∷ ("grandmaster_priority1", number s.grandmaster_priority1)
      ∷ ("grandmaster_priority2", number s.grandmaster_priority2)
      ∷ ("is_active", boolean s.is_active)
      ∷ ("is_connected", boolean s.is_connected)
      ∷ ("is_locked", boolean s.is_locked)
      ∷ ("master_initialized", boolean s.master_initialized)
      ∷ ("master_port_id", string s.master_port_id)
      ∷ ("master_utc_offset", number s.master_utc_offset)
      ∷ ("offset", number_double s.offset)
      ∷ ("offset_scaled_log_variance", number s.offset_scaled_log_variance)
      ∷ ("t1_domain_number", number s.t1_domain_number)
      ∷ []

  unfoldable pub ptp_entry_to_json : Entry Double → Value
  ptp_entry_to_json s = make_object (ptp_entry_fields s)

  abbrev pub device_fields : DeviceDto → List (String × Value)
  device_fields s =
      ("device", string s.device)
      ∷ ("display_name", string s.display_name)
      ∷ ("enable", boolean s.enable)
      ∷ ("id", number s.id)
      ∷ ("sip", string s.sip)
      ∷ []

  unfoldable pub device_to_json : DeviceDto → Value
  device_to_json s = make_object (device_fields s)

  unfoldable pub ptp_entries_to_json : List (Entry Double) → Value
  unfolding ptp_entry_to_json
  ptp_entries_to_json entries = array (map ptp_entry_to_json entries)

  abbrev pub senders_fields : SnapshotDto Double → List (String × Value)
  senders_fields s =
      ("video", vector_to_json video_sender_to_json s.video_senders)
      ∷ ("audio", vector_to_json audio_sender_to_json s.audio_senders)
      ∷ ("ancillary", vector_to_json ancillary_sender_to_json s.ancillary_senders)
      ∷ []

  abbrev pub snapshot_fields : SnapshotDto Double → List (String × Value)
  snapshot_fields s =
      ("ptp_clock", ptp_entries_to_json s.ptp_clock.entries)
      ∷ ("devices", vector_to_json device_to_json s.devices)
      ∷ ("senders", make_object (senders_fields s))
      ∷ (
        "receivers",
        make_object (
            ("video", vector_to_json video_receiver_to_json s.video_receivers)
            ∷ ("audio", vector_to_json audio_receiver_to_json s.audio_receivers)
            ∷ ("ancillary", vector_to_json ancillary_receiver_to_json s.ancillary_receivers)
            ∷ []),
      )
      ∷ []

  unfoldable pub snapshot_to_json : SnapshotDto Double → Value
  unfolding make_object
  snapshot_to_json s = make_object (snapshot_fields s)
