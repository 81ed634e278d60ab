-- ===== src/Dto/Parse.antt =====
-- The `*_from_json` functions of src/daemon/dto.cpp for one object. The `port` of a default
-- `Redudancy` has no initialiser in src/node.h: `junk` is the value that the memory happens to hold.
use nmos_client.Base.{
  String, true, false, not, ◌&&◌, ℤ, pos, [], Except, ok, err, ◌>>=◌, string_eq, if◌then◌else◌,
}
use nmos_client.Json.{Json}
use nmos_client.Dto.Types.{
  Redudancy, VideoSender, AudioSender, AncillarySender, VideoReceiverCaps, VideoReceiver,
  AudioReceiver, AncillaryReceiver, DeviceDto,
}
use nmos_client.Dto.Fields.{
  field_path, invalid_field_error, get_string_or, get_bool_or, get_int_or, get_double_or,
  string_vector_from_json,
}

-- A `Redudancy` that was declared and not filled.
abbrev pub default_redudancy : ℤ → Redudancy
default_redudancy junk = record {
  present = false;
  enable = false;
  source_ip = "";
  ip = "";
  port = junk;
}

module _ (J : Json) where
  open J use {Double, double_zero, Value, is_object, is_array, has_field, at, as_array}

  unfoldable pub redudancy_from_json : Value → String → Except Redudancy
  redudancy_from_json o path =
      if not (is_object o) then err (invalid_field_error path "object" "not an object") else do
        enable ← get_bool_or J o "enable" false path
        source_ip ← get_string_or J o "source_ip" "" path
        ip ← get_string_or J o "ip" "" path
        port ← get_int_or J o "port" (pos 0) path
        ok (record { present = true; enable = enable; source_ip = source_ip; ip = ip; port = port })

  -- `if (object.has_field("redudancy")) stream.redudancy = redudancy_from_json(...)`
  unfoldable pub redudancy_field : ℤ → Value → String → Except Redudancy
  unfolding redudancy_from_json field_path
  redudancy_field junk o path =
      if has_field o "redudancy"
      then redudancy_from_json (at o "redudancy") (field_path path "redudancy")
      else ok (default_redudancy junk)

  unfoldable pub video_sender_from_json : ℤ → Value → String → Except VideoSender
  video_sender_from_json junk o path = do
    id ← get_string_or J o "id" "" path
    name ← get_string_or J o "name" "" path
    enable ← get_bool_or J o "enable" false path
    video_format ← get_string_or J o "video_format" "" path
    colorspace ← get_string_or J o "colorspace" "BT709" path
    transfer_characteristics ← get_string_or J o "transfer_characteristics" "SDR" path
    source_ip ← get_string_or J o "source_ip" "" path
    ip ← get_string_or J o "ip" "" path
    port ← get_int_or J o "port" (pos 0) path
    pg_format ← get_int_or J o "pg_format" (pos 0) path
    redudancy ← redudancy_field junk o path
    ok (record {
      id = id;
      sender_id = "";
      name = name;
      enable = enable;
      video_format = video_format;
      colorspace = colorspace;
      transfer_characteristics = transfer_characteristics;
      source_ip = source_ip;
      ip = ip;
      port = port;
      redudancy = redudancy;
      pg_format = pg_format;
    })

  unfoldable pub audio_sender_from_json : ℤ → Value → String → Except AudioSender
  audio_sender_from_json junk o path = do
    id ← get_string_or J o "id" "" path
    name ← get_string_or J o "name" "" path
    enable ← get_bool_or J o "enable" false path
    channel_count ← get_int_or J o "channel_count" (pos 0) path
    bit_depth ← get_int_or J o "bit_depth" (pos 0) path
    sample_rate ← get_int_or J o "sample_rate" (pos 0) path
    source_ip ← get_string_or J o "source_ip" "" path
    ip ← get_string_or J o "ip" "" path
    port ← get_int_or J o "port" (pos 0) path
    redudancy ← redudancy_field junk o path
    ok (record {
      id = id;
      sender_id = "";
      name = name;
      source_ip = source_ip;
      enable = enable;
      channel_count = channel_count;
      bit_depth = bit_depth;
      sample_rate = sample_rate;
      ip = ip;
      port = port;
      redudancy = redudancy;
    })

  unfoldable pub ancillary_sender_from_json : ℤ → Value → String → Except AncillarySender
  ancillary_sender_from_json junk o path = do
    id ← get_string_or J o "id" "" path
    name ← get_string_or J o "name" "" path
    format ← get_string_or J o "format" "" path
    enable ← get_bool_or J o "enable" false path
    source_ip ← get_string_or J o "source_ip" "" path
    ip ← get_string_or J o "ip" "" path
    port ← get_int_or J o "port" (pos 0) path
    redudancy ← redudancy_field junk o path
    ok (record {
      id = id;
      sender_id = "";
      name = name;
      format = format;
      source_ip = source_ip;
      enable = enable;
      ip = ip;
      port = port;
      redudancy = redudancy;
    })

  -- Only a video receiver reads `redudancy_enable` where the `redudancy` object is missing.
  unfoldable pub receiver_redudancy_field : ℤ → Value → String → Except Redudancy
  unfolding redudancy_from_json field_path
  receiver_redudancy_field junk o path =
      if has_field o "redudancy"
      then redudancy_from_json (at o "redudancy") (field_path path "redudancy")
      else do
        enable ← get_bool_or J o "redudancy_enable" false path
        ok (record (default_redudancy junk) { enable = enable })

  abbrev pub no_caps : VideoReceiverCaps
  no_caps = record { formats = []; colorspaces = []; transfer_characteristics = [] }

  unfoldable pub caps_field : Value → String → Except VideoReceiverCaps
  unfolding field_path
  caps_field o path =
      if has_field o "caps" && is_object (at o "caps")
      then (do
        formats ← string_vector_from_json J (at o "caps") "formats" (field_path path "caps")
        colorspaces ← string_vector_from_json J (at o "caps") "colorspaces" (field_path path "caps")
        tcs ←
            string_vector_from_json J (at o "caps") "transfer_characteristics"
              (field_path path "caps")
        ok (record {
          formats = formats;
          colorspaces = colorspaces;
          transfer_characteristics = tcs;
        }))
      else ok no_caps

  unfoldable pub video_receiver_from_json : ℤ → Value → String → Except VideoReceiver
  video_receiver_from_json junk o path = do
    id ← get_string_or J o "id" "" path
    name ← get_string_or J o "name" "" path
    enable ← get_bool_or J o "enable" false path
    source_ip ← get_string_or J o "source_ip" "" path
    ip ← get_string_or J o "ip" "" path
    port ← get_int_or J o "port" (pos 0) path
    redudancy ← receiver_redudancy_field junk o path
    caps ← caps_field o path
    format ← get_string_or J o "format" "" path
    colorspace ← get_string_or J o "colorspace" "" path
    transfer_characteristics ← get_string_or J o "transfer_characteristics" "" path
    ok (record {
      id = id;
      name = name;
      source_ip = source_ip;
      ip = ip;
      port = port;
      enable = enable;
      redudancy = redudancy;
      caps = caps;
      format = format;
      colorspace = colorspace;
      transfer_characteristics = transfer_characteristics;
    })

  unfoldable pub audio_receiver_from_json : ℤ → Value → String → Except (AudioReceiver Double)
  audio_receiver_from_json junk o path = do
    id ← get_string_or J o "id" "" path
    name ← get_string_or J o "name" "" path
    enable ← get_bool_or J o "enable" false path
    channel_count ← get_int_or J o "channel_count" (pos 0) path
    bit_depth ← get_int_or J o "bit_depth" (pos 0) path
    sample_rate ← get_int_or J o "sample_rate" (pos 0) path
    packet_time ← get_double_or J o "packet_time" double_zero path
    source_ip ← get_string_or J o "source_ip" "" path
    ip ← get_string_or J o "ip" "" path
    port ← get_int_or J o "port" (pos 0) path
    redudancy ← redudancy_field junk o path
    ok (record {
      id = id;
      name = name;
      enable = enable;
      channel_count = channel_count;
      bit_depth = bit_depth;
      sample_rate = sample_rate;
      packet_time = packet_time;
      ip = ip;
      source_ip = source_ip;
      port = port;
      redudancy = redudancy;
    })

  unfoldable pub ancillary_receiver_from_json : ℤ → Value → String → Except AncillaryReceiver
  ancillary_receiver_from_json junk o path = do
    id ← get_string_or J o "id" "" path
    name ← get_string_or J o "name" "" path
    format ← get_string_or J o "format" "" path
    enable ← get_bool_or J o "enable" false path
    source_ip ← get_string_or J o "source_ip" "" path
    ip ← get_string_or J o "ip" "" path
    port ← get_int_or J o "port" (pos 0) path
    redudancy ← redudancy_field junk o path
    ok (record {
      id = id;
      name = name;
      format = format;
      enable = enable;
      ip = ip;
      source_ip = source_ip;
      port = port;
      redudancy = redudancy;
    })

  unfoldable pub device_from_json : Value → String → Except DeviceDto
  device_from_json o path = do
    device ← get_string_or J o "device" "" path
    display_name ← get_string_or J o "display_name" "" path
    enable ← get_bool_or J o "enable" false path
    id ← get_int_or J o "id" (pos 0) path
    sip ← get_string_or J o "sip" "" path
    ok (record {
      device = device;
      display_name = display_name;
      enable = enable;
      id = id;
      sip = sip;
    })
