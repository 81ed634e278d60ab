-- ===== src/Reconcile/Idle.antt =====
-- `apply_snapshot` of src/daemon/reconcile_engine.cpp, called with the snapshot that was applied last.
use nmos_client.Base.{
  String, Bool, true, List, [], ◌∷◌, some, ok, ◌≡◌, refl, sym, All, ◌∙◌, ==-refl, int_eq, bool_eq,
  string_eq, All_any,
}
use nmos_client.Base.Map.{find, entries-find}
use nmos_client.Base.Exec.{Exec, for_each, pure}
use nmos_client.Dto.Types.{SnapshotDto, DeviceDto, Entry}
use nmos_client.Dto.Equivalent.{
  equivalent_device, same_devices, same_entry, same_entries, equivalent_ptp_clock,
}
use nmos_client.Reconcile.Kind.{Kind, StreamOf, id_of, streams, equivalent, resource_type}
use nmos_client.Reconcile.Runtime.{NodeOps}
use nmos_client.Reconcile.Engine.{
  Order, ResourceMap, make_map, visit_current, visit_next, reconcile_list, reconcile_kind, kinds,
  sync_clock, sync_devices, apply_snapshot,
}
use nmos_client.Reconcile.Lists.{IsOrder, make_map-Distinct}
use nmos_client.Reconcile.Matches.{IsEquality, equivalent_refl}

idle_loop :
    {S A : Type 0} (P : A → Type 0) (body : A → Exec S (Unit {0})) (xs : List A)
    → All P xs
    → ((x : A) (s : S) → P x → body x s ≡ pure tt s)
    → (s : S) → for_each body xs s ≡ pure tt s
idle_loop P body [] all idle s = refl
idle_loop P body (x ∷ xs) all idle s = rw (idle x s all.0) (idle_loop P body xs all.1 idle s)

same_devices_refl : (ds : List DeviceDto) → same_devices ds ds ≡ true
unfolding same_devices equivalent_device
same_devices_refl [] = refl
same_devices_refl (d ∷ ds) = rw (
  ==-refl d.device,
  ==-refl d.display_name,
  ==-refl d.enable,
  ==-refl d.id,
  ==-refl d.sip,
  same_devices_refl ds,
)

module _ {D : Type 0} (double_eq : D → D → Bool) (equality : IsEquality double_eq) where
  same_entries_refl : (es : List (Entry D)) → same_entries double_eq es es ≡ true
  unfolding same_entries same_entry
  same_entries_refl [] = refl
  same_entries_refl (e ∷ es) = rw (
    ==-refl e.clock_accuracy,
    ==-refl e.clock_class,
    ==-refl e.grandmaster_identity,
    ==-refl e.grandmaster_priority1,
    ==-refl e.grandmaster_priority2,
    ==-refl e.is_active,
    ==-refl e.is_connected,
    ==-refl e.is_locked,
    ==-refl e.master_initialized,
    ==-refl e.master_port_id,
    ==-refl e.master_utc_offset,
    (equality e.offset e.offset).1 refl,
    ==-refl e.offset_scaled_log_variance,
    ==-refl e.t1_domain_number,
    same_entries_refl es,
  )

  module _ {S : Type 0} (node : NodeOps D S) (arrange : (k : Kind) → Order (StreamOf D k))
      (orders : (k : Kind) → IsOrder (arrange k)) (snapshot : SnapshotDto D) where
    abbrev entries : (k : Kind) → ResourceMap (StreamOf D k)
    entries k = make_map (id_of D k) (streams D k snapshot)

    found :
        (k : Kind)
        → All
            (λ (e : String × StreamOf D k). find e.0 (entries k) ≡ some e.1)
            (arrange k (entries k))
    found k =
        let unique = make_map-Distinct (id_of D k) (streams D k snapshot) in
        entries-find (arrange k (entries k)) (entries k)
          (λ i x p. sym ((orders k).same (entries k) unique i) ∙ p)
          ((orders k).distinct (entries k) unique)

    reconcile_kind-idle :
        (k : Kind) (s : S) → reconcile_kind double_eq node arrange snapshot snapshot k s ≡ pure tt s
    unfolding reconcile_kind reconcile_list visit_current visit_next
    reconcile_kind-idle k s =
        let P = λ (e : String × StreamOf D k). find e.0 (entries k) ≡ some e.1 in
        let body_1 = λ (e : String × StreamOf D k).
          visit_current (resource_type k) (equivalent D double_eq k) (node.remove k) (node.update k)
            (node.add k) e (find e.0 (entries k)) in
        let body_2 = λ (e : String × StreamOf D k).
          visit_next (resource_type k) (equivalent D double_eq k) (node.remove k) (node.update k)
            (node.add k) e (find e.0 (entries k)) in
        let first : for_each body_1 (arrange k (entries k)) s ≡ pure tt s =
          idle_loop P body_1 (arrange k (entries k)) (found k)
            (λ e t p. rw (p, equivalent_refl double_eq equality k e.1)) s in
        let second : for_each body_2 (arrange k (entries k)) s ≡ pure tt s =
          idle_loop P body_2 (arrange k (entries k)) (found k) (λ e t p. rw p) s in
        rw (first) second

    -- With maps walked once in some order and `==` on doubles an equality, applying the snapshot
    -- that was applied before returns and leaves the runtime's state as it was, whatever the
    -- node's calls do.
    pub apply_snapshot-idle :
        (s : S) → apply_snapshot double_eq node arrange (some snapshot) snapshot s ≡ (ok tt, s)
    unfolding apply_snapshot sync_clock sync_devices equivalent_ptp_clock
    apply_snapshot-idle s =
        rw (same_entries_refl snapshot.ptp_clock.entries, same_devices_refl snapshot.devices)
          (idle_loop (λ k. Unit {0}) (reconcile_kind double_eq node arrange snapshot snapshot) kinds
            (All_any kinds) (λ k t p. reconcile_kind-idle k t) s)
