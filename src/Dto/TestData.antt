-- ===== src/Dto/TestData.antt =====
-- Test data for src/daemon/dto.cpp.
use nmos_client.Base.{true, false, [], ◌∷◌, ℤ, pos, string_eq}
use nmos_client.Json.Tree.{Tree, obj, field, stop, str}
use nmos_client.Dto.Types.{
  SnapshotDto, SyncFailedMessage, Redudancy, VideoSender, AudioSender, AncillarySender,
  VideoReceiver, AudioReceiver, AncillaryReceiver, VideoReceiverCaps, DeviceDto, Entry, PtpClockDto,
}
use nmos_client.Dto.Snapshot.{empty_snapshot}

abbrev pub leg : Redudancy
leg = record {
  present = true;
  enable = true;
  source_ip = "10.0.1.2";
  ip = "239.1.1.1";
  port = pos 5004;
}

abbrev pub camera : VideoSender
camera = record {
  id = "cam1";
  sender_id = "";
  name = "Camera 1";
  enable = true;
  video_format = "1080p50";
  colorspace = "BT709";
  transfer_characteristics = "SDR";
  source_ip = "10.0.0.2";
  ip = "239.0.0.1";
  port = pos 5004;
  redudancy = leg;
  pg_format = pos 1;
}

abbrev pub sound : AudioSender
sound = record {
  id = "mic1";
  sender_id = "";
  name = "Microphone";
  source_ip = "10.0.0.2";
  enable = true;
  channel_count = pos 8;
  bit_depth = pos 24;
  sample_rate = pos 48000;
  ip = "239.0.0.2";
  port = pos 5006;
  redudancy = leg;
}

abbrev pub captions : AncillarySender
captions = record {
  id = "anc1";
  sender_id = "";
  name = "Captions";
  format = "1080p50";
  source_ip = "10.0.0.2";
  enable = false;
  ip = "239.0.0.3";
  port = pos 5008;
  redudancy = leg;
}

abbrev pub monitor_caps : VideoReceiverCaps
monitor_caps = record {
  formats = "1080p50" ∷ "720p50" ∷ [];
  colorspaces = "BT709" ∷ [];
  transfer_characteristics = [];
}

abbrev pub monitor : VideoReceiver
monitor = record {
  id = "mon1";
  name = "Monitor";
  source_ip = "10.0.0.2";
  ip = "239.0.0.1";
  port = pos 5004;
  enable = true;
  redudancy = leg;
  caps = monitor_caps;
  format = "1080p50";
  colorspace = "BT709";
  transfer_characteristics = "SDR";
}

abbrev pub speaker : AudioReceiver ℤ
speaker = record {
  id = "spk1";
  name = "Speaker";
  enable = true;
  channel_count = pos 2;
  bit_depth = pos 24;
  sample_rate = pos 48000;
  packet_time = pos 1;
  ip = "239.0.0.2";
  source_ip = "10.0.0.2";
  port = pos 5006;
  redudancy = leg;
}

abbrev pub caption_reader : AncillaryReceiver
caption_reader = record {
  id = "cap1";
  name = "Reader";
  format = "1080p50";
  enable = true;
  ip = "239.0.0.3";
  source_ip = "10.0.0.2";
  port = pos 5008;
  redudancy = leg;
}

abbrev pub card : DeviceDto
card = record {
  device = "eth0";
  display_name = "Card";
  enable = true;
  id = pos 3;
  sip = "10.0.0.2";
}

abbrev pub grandmaster : Entry ℤ
grandmaster = record {
  clock_accuracy = pos 33;
  clock_class = pos 6;
  grandmaster_identity = "00-11-22";
  grandmaster_priority1 = pos 128;
  grandmaster_priority2 = pos 128;
  is_active = true;
  is_connected = true;
  is_locked = true;
  master_initialized = true;
  master_port_id = "1";
  master_utc_offset = pos 37;
  offset = pos 12;
  offset_scaled_log_variance = pos 1;
  t1_domain_number = pos 127;
}

abbrev pub clock : PtpClockDto ℤ
clock = record { entries = grandmaster ∷ [] }

-- A sender as the backend sends it, without a redundancy.
abbrev pub plain : Tree
plain = obj (field "id" (str "cam1") stop)

abbrev pub read_with : ℤ → VideoSender
read_with junk = record {
  id = "cam1";
  sender_id = "";
  name = "";
  enable = false;
  video_format = "";
  colorspace = "BT709";
  transfer_characteristics = "SDR";
  source_ip = "";
  ip = "";
  port = pos 0;
  redudancy = record { present = false; enable = false; source_ip = ""; ip = ""; port = junk };
  pg_format = pos 0;
}

abbrev pub studio : SnapshotDto ℤ
studio = record empty_snapshot { video_senders = camera ∷ [] }

abbrev pub failure : SyncFailedMessage
failure = record { revision = pos 8; message = "timeout" }
