-- ===== src/Reconcile/Examples.antt =====
-- Instances of the theorems on src/daemon/reconcile_engine.cpp, on the test node.
use nmos_client.Dto.TestData.{captions}
use nmos_client.Json.Tree.{tree_json}
use nmos_client.Reconcile.KindLaws.{from_json, to_json, stream-roundtrip, equivalent_iff}
use nmos_client.Base.{ℤ, eqb_ℤ, none, some, ok, ◌≡◌, refl, string_eq, inl, negsuc, ◌↔◌, true}
use nmos_client.Base.Map.{find}
use nmos_client.Dto.Equivalent.{equivalent_ancillary_sender}
use nmos_client.Reconcile.Kind.{equivalent, ancillary_sender, plain}
use nmos_client.Reconcile.Engine.{make_map, apply_snapshot, drain_all}
use nmos_client.Reconcile.Apply.{apply_snapshot-view}
use nmos_client.Reconcile.InStep.{InStep, apply_snapshot-InStep}
use nmos_client.Reconcile.Matches.{Matches, apply_snapshot-Matches}
use nmos_client.Reconcile.Drain.{drain_all-view}
use nmos_client.Reconcile.Idle.{apply_snapshot-idle}
use nmos_client.Reconcile.TestNode.{
  Held, held, held_by, test_node, test_node-IsRuntime, in_order, in_order-IsOrder, eqb_ℤ-IsEquality,
  anc, first_snapshot, second_snapshot, started,
}

abbrev applied : Held
applied = (apply_snapshot eqb_ℤ test_node in_order (some first_snapshot) second_snapshot started).1

apply_snapshot-view_example : held ancillary_sender applied "a" ≡ some (anc "a" "uno")
unfolding apply_snapshot make_map find equivalent_ancillary_sender
apply_snapshot-view_example =
    apply_snapshot-view eqb_ℤ test_node in_order in_order-IsOrder held_by test_node-IsRuntime
      (some first_snapshot) second_snapshot started applied refl ancillary_sender "a"

apply_snapshot-InStep_example :
    InStep
      (plain ℤ ancillary_sender)
      (some (anc "b" "two"))
      none
      (held ancillary_sender applied "b")
unfolding find make_map
apply_snapshot-InStep_example =
    apply_snapshot-InStep eqb_ℤ test_node in_order in_order-IsOrder held_by test_node-IsRuntime
      (some first_snapshot) second_snapshot ancillary_sender "b" started (inl refl)

apply_snapshot-Matches_example :
    Matches
      (equivalent ℤ eqb_ℤ ancillary_sender)
      (held ancillary_sender applied "c")
      (some (anc "c" "three"))
unfolding apply_snapshot make_map find equivalent_ancillary_sender
apply_snapshot-Matches_example =
    apply_snapshot-Matches eqb_ℤ eqb_ℤ-IsEquality test_node in_order in_order-IsOrder held_by
      test_node-IsRuntime (some first_snapshot) second_snapshot started applied refl
      ancillary_sender "c" tt

drain_all-view_example :
    held ancillary_sender (drain_all test_node (some first_snapshot) started).1 "b" ≡ none
unfolding drain_all
drain_all-view_example =
    drain_all-view test_node held_by test_node-IsRuntime first_snapshot started
      (drain_all test_node (some first_snapshot) started).1 refl ancillary_sender "b"

apply_snapshot-idle_example :
    apply_snapshot eqb_ℤ test_node in_order (some first_snapshot) first_snapshot started
    ≡ (ok tt, started)
apply_snapshot-idle_example =
    apply_snapshot-idle eqb_ℤ eqb_ℤ-IsEquality test_node in_order in_order-IsOrder first_snapshot
      started

stream-roundtrip_example :
    from_json tree_json ancillary_sender
      (negsuc 6)
      (to_json tree_json ancillary_sender captions)
      "at"
    ≡ ok captions
stream-roundtrip_example = stream-roundtrip tree_json ancillary_sender (negsuc 6) captions "at"

equivalent_iff_example :
    (equivalent ℤ eqb_ℤ ancillary_sender (anc "a" "one") (anc "a" "uno") ≡ true)
    ↔ (plain ℤ ancillary_sender (anc "a" "one") ≡ plain ℤ ancillary_sender (anc "a" "uno"))
equivalent_iff_example =
    equivalent_iff eqb_ℤ eqb_ℤ-IsEquality ancillary_sender (anc "a" "one") (anc "a" "uno")
