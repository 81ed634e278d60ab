-- ===== src/Dto/Examples.antt =====
-- Instances of the theorems on src/daemon/dto.cpp, on the JSON tree.
use nmos_client.Base.{[], none, err, true, false, ok, pos, ◌≡◌, ◌≤ℤ◌, refl, arith, string_eq}
use nmos_client.Json.Tree.{tree_json}
use nmos_client.Dto.Parse.{redudancy_field, video_sender_from_json}
use nmos_client.Dto.Print.{snapshot_to_json, ptp_entry_to_json}
use nmos_client.Dto.Ptp.{
  ptp_entry_from_json, effective_gmid, effective_locked, effective_ptp_domain,
}
use nmos_client.Dto.Fields.{get_string_or, absent, get_bool_or, get_int_or}
use nmos_client.Dto.Equivalent.{equivalent_video_sender}
use nmos_client.Dto.RoundTrip.Others.{ptp_entry-roundtrip}
use nmos_client.Dto.Snapshot.{snapshot_from_json, snapshot_changed_message_from_json}
use nmos_client.Dto.Messages.{
  make_node_lifecycle_message, make_sync_failed_message, make_streams_drained_message,
}
use nmos_client.Dto.Reading.{snapshot-refused, messages-ignored}
use nmos_client.Dto.Uninitialised.{equivalent-left_out}
use nmos_client.Dto.Ptp.Effective.{at_head, effective_ptp_domain_bounds, effective-first}
use nmos_client.Dto.TestData.{grandmaster, clock, plain, read_with, studio, failure}

ptp_entry-roundtrip_example :
    ptp_entry_from_json tree_json (ptp_entry_to_json tree_json grandmaster) "at" ≡ ok grandmaster
ptp_entry-roundtrip_example = ptp_entry-roundtrip tree_json grandmaster "at"

equivalent-left_out_example :
    equivalent_video_sender (read_with (pos 1)) (read_with (pos 2)) ≡ false
unfolding video_sender_from_json get_string_or absent get_bool_or get_int_or redudancy_field
equivalent-left_out_example =
    equivalent-left_out tree_json plain "at" (pos 1) (pos 2) (read_with (pos 1)) (read_with (pos 2))
      refl (λ e. ground arith) refl refl

effective_ptp_domain_bounds_example :
    (pos 0 ≤ℤ effective_ptp_domain clock) × (effective_ptp_domain clock ≤ℤ pos 127)
effective_ptp_domain_bounds_example = effective_ptp_domain_bounds clock

effective-first_example :
    (effective_gmid clock ≡ "00-11-22")
    × (effective_locked clock ≡ true)
    × (effective_ptp_domain clock ≡ grandmaster.t1_domain_number)
effective-first_example =
    effective-first clock grandmaster (at_head [] refl refl refl) refl (omega arith) (omega arith)

snapshot-refused_example :
    snapshot_from_json tree_json (λ path. pos 0) (snapshot_to_json tree_json studio)
    ≡ err "invalid JSON field 'senders': expected array: not an array"
snapshot-refused_example = snapshot-refused tree_json (λ path. pos 0) studio

messages-ignored_example :
    (snapshot_changed_message_from_json tree_json
        (make_node_lifecycle_message tree_json "starting" "running")
      ≡ ok none)
    × (snapshot_changed_message_from_json tree_json (make_sync_failed_message tree_json failure)
        ≡ ok none)
    × (snapshot_changed_message_from_json tree_json (make_streams_drained_message tree_json)
        ≡ ok none)
messages-ignored_example = messages-ignored tree_json "starting" "running" failure
