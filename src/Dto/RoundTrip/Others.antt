-- ===== src/Dto/RoundTrip/Others.antt =====
-- Printing and reading a device and an entry of the PTP clock, src/daemon/dto.cpp.
use nmos_client.Base.{String, false, [], ok, pos, ◌≡◌, refl, string_eq}
use nmos_client.Json.{Json}
use nmos_client.Dto.Types.{Entry, DeviceDto}
use nmos_client.Dto.Parse.{device_from_json}
use nmos_client.Dto.Ptp.{ptp_entry_from_json}
use nmos_client.Dto.Print.{device_to_json, device_fields, ptp_entry_to_json, ptp_entry_fields}
use nmos_client.Dto.Objects.{string_field, int_field, bool_field, double_field}
use nmos_client.Dto.Nested.{no_skip}

module _ (J : Json) where
  open J use {Double, double_zero, Value}

  -- Reading a printed device gives it back.
  pub device-roundtrip :
      (s : DeviceDto) (path : String) → device_from_json J (device_to_json J s) path ≡ ok s
  unfolding device_from_json device_to_json
  device-roundtrip s path = rw (
    string_field J (device_fields J s) [] [] "device" s.device "" path (no_skip J "device")
        (refl, refl),
    string_field J (device_fields J s) [] [] "display_name" s.display_name "" path
        (no_skip J "display_name") (refl, refl),
    bool_field J (device_fields J s) [] [] "enable" s.enable false path (no_skip J "enable")
        (refl, refl),
    int_field J (device_fields J s) [] [] "id" s.id (pos 0) path (no_skip J "id") (refl, refl),
    string_field J (device_fields J s) [] [] "sip" s.sip "" path (no_skip J "sip") (refl, refl),
  )

  -- Reading a printed entry of the PTP clock gives it back.
  pub ptp_entry-roundtrip :
      (s : Entry Double) (path : String) → ptp_entry_from_json J (ptp_entry_to_json J s) path ≡ ok s
  unfolding ptp_entry_from_json ptp_entry_to_json
  ptp_entry-roundtrip s path = rw (
    int_field J (ptp_entry_fields J s) [] [] "clock_accuracy" s.clock_accuracy (pos 0) path
        (no_skip J "clock_accuracy") (refl, refl),
    int_field J (ptp_entry_fields J s) [] [] "clock_class" s.clock_class (pos 0) path
        (no_skip J "clock_class") (refl, refl),
    string_field J (ptp_entry_fields J s) [] [] "grandmaster_identity" s.grandmaster_identity ""
        path (no_skip J "grandmaster_identity") (refl, refl),
    int_field J (ptp_entry_fields J s) [] [] "grandmaster_priority1" s.grandmaster_priority1 (pos 0)
        path (no_skip J "grandmaster_priority1") (refl, refl),
    int_field J (ptp_entry_fields J s) [] [] "grandmaster_priority2" s.grandmaster_priority2 (pos 0)
        path (no_skip J "grandmaster_priority2") (refl, refl),
    bool_field J (ptp_entry_fields J s) [] [] "is_active" s.is_active false path
        (no_skip J "is_active") (refl, refl),
    bool_field J (ptp_entry_fields J s) [] [] "is_connected" s.is_connected false path
        (no_skip J "is_connected") (refl, refl),
    bool_field J (ptp_entry_fields J s) [] [] "is_locked" s.is_locked false path
        (no_skip J "is_locked") (refl, refl),
    bool_field J (ptp_entry_fields J s) [] [] "master_initialized" s.master_initialized false path
        (no_skip J "master_initialized") (refl, refl),
    string_field J (ptp_entry_fields J s) [] [] "master_port_id" s.master_port_id "" path
        (no_skip J "master_port_id") (refl, refl),
    int_field J (ptp_entry_fields J s) [] [] "master_utc_offset" s.master_utc_offset (pos 0) path
        (no_skip J "master_utc_offset") (refl, refl),
    double_field J (ptp_entry_fields J s) [] [] "offset" s.offset double_zero path
        (no_skip J "offset") (refl, refl),
    int_field J (ptp_entry_fields J s) [] [] "offset_scaled_log_variance"
        s.offset_scaled_log_variance (pos 0) path (no_skip J "offset_scaled_log_variance")
        (refl, refl),
    int_field J (ptp_entry_fields J s) [] [] "t1_domain_number" s.t1_domain_number (pos 127) path
        (no_skip J "t1_domain_number") (refl, refl),
  )
