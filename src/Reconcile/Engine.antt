-- ===== src/Reconcile/Engine.antt =====
-- src/daemon/reconcile_engine.cpp. `arrange` is the order in which an unordered map is walked.
use nmos_client.Base.{
  String, Bool, not, List, [], ◌∷◌, map, Option, none, some, concat, string_eq, if◌then◌else◌,
}
use nmos_client.Base.Map.{find, emplace_all}
use nmos_client.Base.Exec.{Exec, pure, ◌>>◌, rethrow, for_each}
use nmos_client.Dto.Types.{SnapshotDto}
use nmos_client.Dto.Equivalent.{equivalent_ptp_clock, same_devices}
use nmos_client.Dto.Snapshot.{empty_snapshot}
use nmos_client.Reconcile.Kind.{
  Kind, StreamOf, id_of, streams, equivalent, resource_type, video_receiver, audio_receiver,
  ancillary_receiver, video_sender, audio_sender, ancillary_sender,
}
use nmos_client.Reconcile.Runtime.{NodeOps, set_ptp_clock, set_runtime_devices}

abbrev pub ResourceMap : Type 0 → Type 0
ResourceMap T = List (String × T)

unfoldable pub make_map : {T : Type 0} → (T → String) → List T → ResourceMap T
unfolding emplace_all
make_map id items = emplace_all [] (map (λ item. (id item, item)) items)

unfoldable pub reconcile_error : String → String → String → String → String
reconcile_error resource_type action id error = concat (
    "snapshot apply failed, resource=" ∷ resource_type ∷ ", action=" ∷ action ∷ ", id=" ∷ id
    ∷ ", error=" ∷ error ∷ [])

-- An order of iteration: any function of the map.
abbrev pub Order : Type 0 → Type 0
Order T = ResourceMap T → ResourceMap T

module _ {S T : Type 0} (resource_type : String) (equivalent : T → T → Bool)
    (remove : String → Exec S (Unit {0})) (update add : T → Exec S (Unit {0})) where
  -- The body of the loop over the current streams, from what `next_map.find(id)` found.
  unfoldable pub visit_current : String × T → Option T → Exec S (Unit {0})
  visit_current (id, current_item) none =
      rethrow (reconcile_error resource_type "remove" id) (remove id)
  visit_current (id, current_item) (some next_item) =
      if not (equivalent current_item next_item)
      then rethrow (reconcile_error resource_type "update" id) (update next_item)
      else pure tt

  -- The body of the loop over the next streams, from what `current_map.find(id)` found.
  unfoldable pub visit_next : String × T → Option T → Exec S (Unit {0})
  visit_next (id, next_item) none = rethrow (reconcile_error resource_type "add" id) (add next_item)
  visit_next (id, next_item) (some current_item) = pure tt

  unfoldable pub reconcile_list : Order T → (T → String) → List T → List T → Exec S (Unit {0})
  unfolding visit_current visit_next
  reconcile_list arrange id current next = do
    for_each (λ (entry : String × T). visit_current entry (find entry.0 (make_map id next)))
        (arrange (make_map id current))
    for_each (λ (entry : String × T). visit_next entry (find entry.0 (make_map id current)))
        (arrange (make_map id next))

-- The order of the six calls of `reconcile_list`, and of the six loops of `drain_all`.
abbrev pub kinds : List Kind
kinds =
    video_receiver ∷ audio_receiver ∷ ancillary_receiver ∷ video_sender ∷ audio_sender
    ∷ ancillary_sender ∷ []

-- current_snapshot.value_or(empty_snapshot)
abbrev pub value_or_empty : {D : Type 0} → Option (SnapshotDto D) → SnapshotDto D
value_or_empty none = empty_snapshot
value_or_empty (some s) = s

module _ {D S : Type 0} (node : NodeOps D S) where
  unfoldable pub sync_devices : SnapshotDto D → SnapshotDto D → Exec S (Unit {0})
  unfolding set_runtime_devices same_devices
  sync_devices current new_snapshot =
      if not (same_devices current.devices new_snapshot.devices)
      then set_runtime_devices node new_snapshot.devices
      else pure tt

  -- One of the six loops of `drain_all`.
  unfoldable pub drain_kind : SnapshotDto D → Kind → Exec S (Unit {0})
  drain_kind s k = for_each (λ x. node.remove k (id_of D k x)) (streams D k s)

  unfoldable pub drain_all : Option (SnapshotDto D) → Exec S (Unit {0})
  unfolding drain_kind
  drain_all none = pure tt
  drain_all (some s) = for_each (drain_kind s) kinds

module _ {D S : Type 0} (double_eq : D → D → Bool) (node : NodeOps D S) where
  unfoldable pub sync_clock : SnapshotDto D → SnapshotDto D → Exec S (Unit {0})
  unfolding set_ptp_clock equivalent_ptp_clock
  sync_clock current new_snapshot =
      if not (equivalent_ptp_clock double_eq current.ptp_clock new_snapshot.ptp_clock)
      then set_ptp_clock node new_snapshot.ptp_clock
      else pure tt

  module _ (arrange : (k : Kind) → Order (StreamOf D k)) where
    unfoldable pub reconcile_kind : SnapshotDto D → SnapshotDto D → Kind → Exec S (Unit {0})
    unfolding reconcile_list
    reconcile_kind current next k =
        reconcile_list (resource_type k) (equivalent D double_eq k) (node.remove k) (node.update k)
          (node.add k) (arrange k) (id_of D k) (streams D k current) (streams D k next)

    unfoldable pub apply_snapshot : Option (SnapshotDto D) → SnapshotDto D → Exec S (Unit {0})
    unfolding sync_clock sync_devices reconcile_kind
    apply_snapshot current_snapshot new_snapshot = do
      sync_clock (value_or_empty current_snapshot) new_snapshot
      sync_devices node (value_or_empty current_snapshot) new_snapshot
      for_each (reconcile_kind (value_or_empty current_snapshot) new_snapshot) kinds
