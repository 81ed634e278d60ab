-- ===== src/Dto/Types.antt =====
-- The data of src/node.h (streams) and src/daemon/dto.h (snapshot). `D` stands for `double`.
use nmos_client.Base.{String, Bool, ℤ, List}

pub record Redudancy : Type 0 where
  pub present : Bool
  pub enable : Bool
  pub source_ip : String
  pub ip : String
  pub port : ℤ

pub record VideoSender : Type 0 where
  pub id : String
  pub sender_id : String
  pub name : String
  pub enable : Bool
  pub video_format : String
  pub colorspace : String
  pub transfer_characteristics : String
  pub source_ip : String
  pub ip : String
  pub port : ℤ
  pub redudancy : Redudancy
  pub pg_format : ℤ

pub record AudioSender : Type 0 where
  pub id : String
  pub sender_id : String
  pub name : String
  pub source_ip : String
  pub enable : Bool
  pub channel_count : ℤ
  pub bit_depth : ℤ
  pub sample_rate : ℤ
  pub ip : String
  pub port : ℤ
  pub redudancy : Redudancy

pub record VideoReceiverCaps : Type 0 where
  pub formats : List String
  pub colorspaces : List String
  pub transfer_characteristics : List String

pub record VideoReceiver : Type 0 where
  pub id : String
  pub name : String
  pub source_ip : String
  pub ip : String
  pub port : ℤ
  pub enable : Bool
  pub redudancy : Redudancy
  pub caps : VideoReceiverCaps
  pub format : String
  pub colorspace : String
  pub transfer_characteristics : String

pub record AudioReceiver (D : Type 0) : Type 0 where
  pub id : String
  pub name : String
  pub enable : Bool
  pub channel_count : ℤ
  pub bit_depth : ℤ
  pub sample_rate : ℤ
  pub packet_time : D
  pub ip : String
  pub source_ip : String
  pub port : ℤ
  pub redudancy : Redudancy

pub record AncillarySender : Type 0 where
  pub id : String
  pub sender_id : String
  pub name : String
  pub format : String
  pub source_ip : String
  pub enable : Bool
  pub ip : String
  pub port : ℤ
  pub redudancy : Redudancy

pub record AncillaryReceiver : Type 0 where
  pub id : String
  pub name : String
  pub format : String
  pub enable : Bool
  pub ip : String
  pub source_ip : String
  pub port : ℤ
  pub redudancy : Redudancy

pub record RegistrationStatus : Type 0 where
  pub connected : Bool
  pub uri : String
  pub scheme : String
  pub host : String
  pub port : ℤ
  pub version : String

-- PtpClockDto::Entry; a PtpClockDto is the list of its entries.
pub record Entry (D : Type 0) : Type 0 where
  pub clock_accuracy : ℤ
  pub clock_class : ℤ
  pub grandmaster_identity : String
  pub grandmaster_priority1 : ℤ
  pub grandmaster_priority2 : ℤ
  pub is_active : Bool
  pub is_connected : Bool
  pub is_locked : Bool
  pub master_initialized : Bool
  pub master_port_id : String
  pub master_utc_offset : ℤ
  pub offset : D
  pub offset_scaled_log_variance : ℤ
  pub t1_domain_number : ℤ

pub record PtpClockDto (D : Type 0) : Type 0 where
  pub entries : List (Entry D)

pub record DeviceDto : Type 0 where
  pub device : String
  pub display_name : String
  pub enable : Bool
  pub id : ℤ
  pub sip : String

pub record SnapshotDto (D : Type 0) : Type 0 where
  pub ptp_clock : PtpClockDto D
  pub devices : List DeviceDto
  pub video_senders : List VideoSender
  pub audio_senders : List AudioSender
  pub ancillary_senders : List AncillarySender
  pub video_receivers : List VideoReceiver
  pub audio_receivers : List (AudioReceiver D)
  pub ancillary_receivers : List AncillaryReceiver

pub record SnapshotChangedMessage : Type 0 where
  pub revision : ℤ
  pub reason : String

pub record SyncFailedMessage : Type 0 where
  pub revision : ℤ
  pub message : String
