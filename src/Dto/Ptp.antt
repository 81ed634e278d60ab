-- ===== src/Dto/Ptp.antt =====
-- The PTP clock of src/daemon/dto.cpp: reading it from JSON in its three shapes, and the values
-- that it stands for.
pub mod Effective
use nmos_client.Base.{
  ℕ, suc, String, Bool, true, false, not, ◌&&◌, ◌||◌, ℤ, pos, leb_ℤ, List, [], ◌∷◌, Except, ok,
  ◌>>=◌, ◌==◌, string_eq, if◌then◌else◌,
}
use nmos_client.Json.{Json}
use nmos_client.Dto.Types.{Entry, PtpClockDto}
use nmos_client.Dto.Fields.{
  field_path, index_path, get_string_or, get_bool_or, get_int_or, get_double_or,
}

module _ {D : Type 0} where
  -- The test of the loops below.
  abbrev pub is_usable : Entry D → Bool
  is_usable entry = entry.is_active && (entry.is_connected && entry.master_initialized)

  unfoldable pub gmid_of : List (Entry D) → String
  gmid_of [] = ""
  gmid_of (entry ∷ entries) =
      if is_usable entry && not (entry.grandmaster_identity == "")
      then entry.grandmaster_identity
      else gmid_of entries

  unfoldable pub effective_gmid : PtpClockDto D → String
  unfolding gmid_of
  effective_gmid ptp_clock = gmid_of ptp_clock.entries

  unfoldable pub locked_of : List (Entry D) → Bool
  locked_of [] = false
  locked_of (entry ∷ entries) = if is_usable entry then entry.is_locked else locked_of entries

  unfoldable pub effective_locked : PtpClockDto D → Bool
  unfolding locked_of
  effective_locked ptp_clock = locked_of ptp_clock.entries

  unfoldable pub domain_of : List (Entry D) → ℤ
  domain_of [] = pos 127
  domain_of (entry ∷ entries) =
      if is_usable entry
      then (if leb_ℤ (pos 0) entry.t1_domain_number && leb_ℤ entry.t1_domain_number (pos 127)
          then entry.t1_domain_number
          else pos 127)
      else domain_of entries

  unfoldable pub effective_ptp_domain : PtpClockDto D → ℤ
  unfolding domain_of
  effective_ptp_domain ptp_clock = domain_of ptp_clock.entries

module _ (J : Json) where
  open J use {Double, double_zero, Value, is_object, is_array, has_field, at, as_array}

  unfoldable pub ptp_entry_from_json : Value → String → Except (Entry Double)
  ptp_entry_from_json o path = do
    clock_accuracy ← get_int_or J o "clock_accuracy" (pos 0) path
    clock_class ← get_int_or J o "clock_class" (pos 0) path
    grandmaster_identity ← get_string_or J o "grandmaster_identity" "" path
    grandmaster_priority1 ← get_int_or J o "grandmaster_priority1" (pos 0) path
    grandmaster_priority2 ← get_int_or J o "grandmaster_priority2" (pos 0) path
    is_active ← get_bool_or J o "is_active" false path
    is_connected ← get_bool_or J o "is_connected" false path
    is_locked ← get_bool_or J o "is_locked" false path
    master_initialized ← get_bool_or J o "master_initialized" false path
    master_port_id ← get_string_or J o "master_port_id" "" path
    master_utc_offset ← get_int_or J o "master_utc_offset" (pos 0) path
    offset ← get_double_or J o "offset" double_zero path
    offset_scaled_log_variance ← get_int_or J o "offset_scaled_log_variance" (pos 0) path
    t1_domain_number ← get_int_or J o "t1_domain_number" (pos 127) path
    ok (record {
      clock_accuracy = clock_accuracy;
      clock_class = clock_class;
      grandmaster_identity = grandmaster_identity;
      grandmaster_priority1 = grandmaster_priority1;
      grandmaster_priority2 = grandmaster_priority2;
      is_active = is_active;
      is_connected = is_connected;
      is_locked = is_locked;
      master_initialized = master_initialized;
      master_port_id = master_port_id;
      master_utc_offset = master_utc_offset;
      offset = offset;
      offset_scaled_log_variance = offset_scaled_log_variance;
      t1_domain_number = t1_domain_number;
    })

  -- The loop over an array of entries: what is no object is passed over, and still counted.
  unfoldable pub entries_from : String → ℕ → List Value → Except (List (Entry Double))
  unfolding index_path
  entries_from path index [] = ok []
  entries_from path index (item ∷ items) =
      let rest = entries_from path (suc index) items in
      if is_object item
      then (do
        entry ← ptp_entry_from_json item (index_path path index)
        entries ← rest
        ok (entry ∷ entries))
      else rest

  -- An `Entry` with its default values, but for those that the short form gives.
  abbrev pub short_entry : String → Bool → Entry Double
  short_entry gmid locked = record {
    clock_accuracy = pos 0;
    clock_class = pos 0;
    grandmaster_identity = gmid;
    grandmaster_priority1 = pos 0;
    grandmaster_priority2 = pos 0;
    is_active = true;
    is_connected = true;
    is_locked = locked;
    master_initialized = true;
    master_port_id = "";
    master_utc_offset = pos 0;
    offset = double_zero;
    offset_scaled_log_variance = pos 0;
    t1_domain_number = pos 127;
  }

  unfoldable pub ptp_entries_from_json : Value → String → Except (List (Entry Double))
  unfolding entries_from field_path
  ptp_entries_from_json v path =
      if is_array v
      then entries_from path 0 (as_array v)
      else if is_object v && (has_field v "entries" && is_array (at v "entries"))
      then entries_from (field_path path "entries") 0 (as_array (at v "entries"))
      else if is_object v
      then (do
        gmid ← get_string_or J v "gmid" "" path
        if not (gmid == "") || has_field v "locked"
            then (do
              locked ← get_bool_or J v "locked" false path
              ok (short_entry gmid locked ∷ []))
            else ok [])
      else ok []
