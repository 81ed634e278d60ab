-- ===== src/Node/Examples.antt =====
-- Instances of the theorems on src/node.cpp, on the test library.
use nmos_client.Node.Restart.{reset_model_state, reinsert_cached_resources}
use nmos_client.Node.Reinsert.{DistinctIds}
use nmos_client.Dto.Equivalent.{equivalent_ancillary_sender}
use nmos_client.Node.Methods.{
  add_sender, update_sender, remove_sender, unregister_sender, renew_sender,
}
use nmos_client.Reconcile.Engine.{
  make_map, apply_snapshot, sync_clock, sync_devices, reconcile_list, visit_current, visit_next,
}
use nmos_client.Base.Map.{find}
use nmos_client.Node.Steps.{
  insert_resource_after, erase_resource_if_present, set_device, remove_resource_after,
  replace_sender_resources,
}
use nmos_client.Node.Resources.{
  make_ancillary_sender_resources, make_video_sender_resources, make_audio_sender_resources,
}
use nmos_client.Base.{
  string_iff, inl, inr, ℕ, String, true, false, List, [], ◌∷◌, none, some, Except, ℤ, ◌≡◌, refl,
  string_eq, ◌⊎◌, eqb_ℤ,
}
use nmos_client.Reconcile.Kind.{
  Kind, equivalent, ancillary_sender, video_receiver, audio_receiver, ancillary_receiver,
  video_sender, audio_sender,
}
use nmos_client.Reconcile.Runtime.{IsRuntime}
use nmos_client.Reconcile.Matches.{Matches}
use nmos_client.Reconcile.TestNode.{
  in_order, in_order-IsOrder, eqb_ℤ-IsEquality, first_snapshot, second_snapshot, anc,
}
use nmos_client.Node.Gmid.{normalize_ptp_gmid, is_valid_ptp_gmid}
use nmos_client.Node.GmidLaws.{normalize_ptp_gmid-IsValid}
use nmos_client.Node.GmidKept.{normalize_ptp_gmid-valid}
use nmos_client.Node.Interfaces.{mem, select_runtime_interface_leg, select_runtime_interfaces}
use nmos_client.Node.InterfaceLaws.{
  IsBeside, IsLegOf, any_of, select_runtime_interface_leg-IsLegOf,
  select_runtime_interfaces-configured, select_runtime_interfaces-spread,
}
use nmos_client.Node.State.{ancillary, find_by_id, cached, Model, Node}
use nmos_client.Node.Streams.{register_sender, insert_sender_resources, erase_leftovers}
use nmos_client.Node.AtomicAdd.{register_sender-atomic}
use nmos_client.Node.Runtime.{node_ops, node_ops-IsRuntime, view, NamedNode, add, update, remove}
use nmos_client.Node.Applied.{apply_all, apply_all-node, in_map}
use nmos_client.Node.TestLibrary.{
  test_library, test_library-IsInjective, test_model, fresh_node, port_a, port_b, find_id,
}

abbrev no_bytes : String → List ℕ
no_bytes text = []

node_ops_test :
    IsRuntime (node_ops test_library no_bytes test_library-IsInjective) (view test_library)
node_ops_test = node_ops-IsRuntime test_library no_bytes test_library-IsInjective

-- "00:11:22:FF:FE:00:11:22" as bytes, and its normal form.
abbrev gmid : List ℕ
gmid =
    48 ∷ 48 ∷ 58 ∷ 49 ∷ 49 ∷ 58 ∷ 50 ∷ 50 ∷ 58 ∷ 70 ∷ 70 ∷ 58 ∷ 70 ∷ 69 ∷ 58 ∷ 48 ∷ 48 ∷ 58 ∷ 49
    ∷ 49 ∷ 58 ∷ 50 ∷ 50 ∷ []

abbrev normal_gmid : List ℕ
normal_gmid =
    48 ∷ 48 ∷ 45 ∷ 49 ∷ 49 ∷ 45 ∷ 50 ∷ 50 ∷ 45 ∷ 102 ∷ 102 ∷ 45 ∷ 102 ∷ 101 ∷ 45 ∷ 48 ∷ 48 ∷ 45 ∷ 49
    ∷ 49 ∷ 45 ∷ 50 ∷ 50 ∷ []

gmid_test : normalize_ptp_gmid gmid ≡ normal_gmid
unfolding normalize_ptp_gmid
gmid_test = refl

normalize_ptp_gmid-IsValid_example :
    (normalize_ptp_gmid gmid ≡ []) ⊎ (is_valid_ptp_gmid (normalize_ptp_gmid gmid) ≡ true)
normalize_ptp_gmid-IsValid_example = normalize_ptp_gmid-IsValid gmid

normalize_ptp_gmid-valid_example : normalize_ptp_gmid normal_gmid ≡ normal_gmid
unfolding is_valid_ptp_gmid
normalize_ptp_gmid-valid_example = normalize_ptp_gmid-valid normal_gmid refl

select_runtime_interface_leg-IsLegOf_example :
    IsLegOf (port_a ∷ port_b ∷ []) (select_runtime_interface_leg (port_a ∷ port_b ∷ []) "10.0.0.3")
select_runtime_interface_leg-IsLegOf_example =
    select_runtime_interface_leg-IsLegOf (port_a ∷ port_b ∷ []) "10.0.0.3"

select_runtime_interfaces-configured_example :
    ((select_runtime_interfaces (port_a ∷ port_b ∷ []) "10.0.0.1" "10.0.0.3" true).primary.ip
      ≡ "10.0.0.1")
    × ((select_runtime_interfaces (port_a ∷ port_b ∷ []) "10.0.0.1" "10.0.0.3" true).redundancy.ip
        ≡ "10.0.0.3")
unfolding any_of
select_runtime_interfaces-configured_example =
    select_runtime_interfaces-configured (port_a ∷ port_b ∷ []) "10.0.0.1" "10.0.0.3" refl refl

port_b-IsBeside : IsBeside (port_a ∷ port_b ∷ []) port_a port_b
port_b-IsBeside = (inr (inl refl), λ e. absurd (cc e), λ e. absurd (cc ((string_iff "b" "a").1 e)))

select_runtime_interfaces-spread_example :
    let legs = select_runtime_interfaces (port_a ∷ port_b ∷ []) "10.0.0.1" "" true in
    (legs.redundancy.selected ≡ true)
    × IsBeside (port_a ∷ port_b ∷ []) legs.primary.interface legs.redundancy.interface
    × (mem legs.redundancy.ip legs.redundancy.interface.addresses ≡ true)
unfolding any_of select_runtime_interface_leg select_runtime_interfaces
select_runtime_interfaces-spread_example =
    select_runtime_interfaces-spread (port_a ∷ port_b ∷ []) "10.0.0.1" "" port_b refl
      port_b-IsBeside

-- A shutdown comes in the third wait, when the source and the flow are inserted.
abbrev stopped : Model test_library
unfolding register_sender
stopped =
    (register_sender test_library ancillary "seed" (anc "a" "one")
      (test_model (false ∷ false ∷ true ∷ []))).1

register_sender-atomic_example :
    (find_id stopped.node_resources "/x-nmos/node/source/DATAa" ≡ none)
    × (find_id stopped.connection_resources "/x-nmos/node/sender/DATAa" ≡ none)
unfolding register_sender make_video_sender_resources make_audio_sender_resources
    make_ancillary_sender_resources insert_sender_resources erase_leftovers insert_resource_after
    erase_resource_if_present set_device
register_sender-atomic_example =
    register_sender-atomic test_library "/x-nmos/node/source/DATAa" "/x-nmos/node/sender/DATAa"
      ancillary "seed" (anc "a" "one") (test_model (false ∷ false ∷ true ∷ [])) stopped
      "add ancillary sender failed!" refl refl refl

abbrev no_cached : (k : Kind) → cached k fresh_node.0.cache ≡ []
no_cached video_receiver = refl
no_cached audio_receiver = refl
no_cached ancillary_receiver = refl
no_cached video_sender = refl
no_cached audio_sender = refl
no_cached ancillary_sender = refl

-- Two snapshots on a fresh node.
abbrev applied : Except (Unit {0}) × NamedNode test_library
unfolding apply_all
applied =
    apply_all eqb_ℤ in_order (node_ops test_library no_bytes test_library-IsInjective) none
      (first_snapshot ∷ second_snapshot ∷ []) fresh_node

apply_all_test :
    Matches
      (equivalent ℤ eqb_ℤ ancillary_sender)
      (view test_library ancillary_sender applied.1 "c")
      (in_map (some second_snapshot) ancillary_sender "c")
unfolding apply_all node_ops equivalent_ancillary_sender find_by_id find make_map apply_snapshot
    sync_clock sync_devices reconcile_list visit_current visit_next add update remove add_sender
    update_sender remove_sender register_sender unregister_sender renew_sender
    make_video_sender_resources make_audio_sender_resources make_ancillary_sender_resources
    insert_sender_resources erase_leftovers insert_resource_after erase_resource_if_present
    remove_resource_after replace_sender_resources set_device
apply_all_test =
    apply_all-node eqb_ℤ eqb_ℤ-IsEquality in_order in_order-IsOrder test_library no_bytes
      test_library-IsInjective (first_snapshot ∷ second_snapshot ∷ []) fresh_node applied.1
      no_cached refl ancillary_sender "c"

-- A node with one sender, and the node after a reset of its model.
abbrev one_sender : Node test_library
unfolding add
one_sender = (add test_library ancillary_sender (anc "a" "one") fresh_node.0).1

abbrev distinct_ids : (k : Kind) → DistinctIds test_library k (cached k one_sender.cache)
unfolding find_by_id add add_sender update_sender register_sender renew_sender
    make_video_sender_resources make_audio_sender_resources make_ancillary_sender_resources
    insert_sender_resources erase_leftovers insert_resource_after erase_resource_if_present
    set_device
distinct_ids video_receiver = tt
distinct_ids audio_receiver = tt
distinct_ids ancillary_receiver = tt
distinct_ids video_sender = tt
distinct_ids audio_sender = tt
distinct_ids ancillary_sender = (refl, tt)

abbrev restarted : Node test_library
unfolding add reset_model_state
restarted = record one_sender { model = (reset_model_state test_library one_sender.model).1 }

abbrev reinserted : Except (Unit {0}) × Node test_library
unfolding reinsert_cached_resources add reset_model_state
reinserted = reinsert_cached_resources test_library restarted
