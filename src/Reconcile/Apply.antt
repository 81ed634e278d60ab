-- ===== src/Reconcile/Apply.antt =====
-- `apply_snapshot` of src/daemon/reconcile_engine.cpp, where it returns.
use nmos_client.Dto.Equivalent.{same_devices, equivalent_ptp_clock}
use nmos_client.Base.{
  String, Bool, true, false, List, [], ◌∷◌, Option, none, some, ok, ◌≡◌, ◌≢◌, refl, ◌∙◌,
  if◌then◌else◌, arith, Bool-cases, inl, inr, string_eq, subst, map,
}
use nmos_client.Base.Map.{find}
use nmos_client.Base.Exec.{for_each, >>-ok, ◌>>◌, pure-ok, for_each-keeps, rethrow-ok}
use nmos_client.Dto.Types.{SnapshotDto}
use nmos_client.Dto.Ptp.{effective_gmid, effective_locked, effective_ptp_domain}
use nmos_client.Reconcile.Kind.{
  Kind, StreamOf, id_of, streams, equivalent, resource_type, same_kind, same_kind_iff, listed,
  video_receiver, DistinctKinds, plain,
}
use nmos_client.Reconcile.Runtime.{NodeOps, IsRuntime, device_to_interface}
use nmos_client.Reconcile.Engine.{
  Order, make_map, visit_current, visit_next, reconcile_list, reconcile_kind, reconcile_error,
  kinds, value_or_empty, sync_clock, sync_devices, apply_snapshot,
}
use nmos_client.Reconcile.Lists.{IsOrder, reconciled, reconcile_list-view}

module _ {D S : Type 0} (double_eq : D → D → Bool) (node : NodeOps D S)
    (arrange : (k : Kind) → Order (StreamOf D k)) (orders : (k : Kind) → IsOrder (arrange k))
    (view : (k : Kind) → S → String → Option (StreamOf D k)) (runtime : IsRuntime node view) where
  module _ (current next : SnapshotDto D) where
    abbrev in_current : (k : Kind) → String → Option (StreamOf D k)
    in_current k j = find j (make_map (id_of D k) (streams D k current))

    abbrev in_next : (k : Kind) → String → Option (StreamOf D k)
    in_next k j = find j (make_map (id_of D k) (streams D k next))

    reconcile_kind-view :
        (k : Kind) (s s' : S)
        → reconcile_kind double_eq node arrange current next k s ≡ (ok tt, s')
        → (j : String)
        → view k s' j
          ≡ reconciled
              (equivalent D double_eq k)
              (plain D k)
              (in_current k j)
              (in_next k j)
              (view k s j)
    unfolding reconcile_kind
    reconcile_kind-view k s s' h j =
        reconcile_list-view (resource_type k) (equivalent D double_eq k) (node.remove k)
          (node.update k) (node.add k) (id_of D k) (plain D k) (view k) (runtime.remove_view k)
          (runtime.update_view k) (runtime.add_view k) (arrange k) (orders k) (streams D k current)
          (streams D k next) s s' h j

    module _ (k l : Kind) (different : k ≢ l) (j : String) where
      visit_current-keeps :
          (entry : String × StreamOf D k) (found : Option (StreamOf D k)) (s s' : S)
          → visit_current
              (resource_type k)
              (equivalent D double_eq k)
              (node.remove k)
              (node.update k)
              (node.add k)
              entry
              found
              s
            ≡ (ok tt, s')
          → view l s' j ≡ view l s j
      unfolding visit_current
      visit_current-keeps (i, x) none s s' h =
          runtime.remove_keeps k l i s s' different
            (rethrow-ok (reconcile_error (resource_type k) "remove" i) (node.remove k i) s s' h) j
      visit_current-keeps (i, x) (some n) s s' h =
          elim (Bool-cases (equivalent D double_eq k x n)) [
            | inl e ↦ rw (← pure-ok s s' (rw e at h))
            | inr e ↦
                runtime.update_keeps k l n s s' different
                  (rethrow-ok (reconcile_error (resource_type k) "update" i) (node.update k n) s s'
                    (rw e at h))
                  j
          ]

      visit_next-keeps :
          (entry : String × StreamOf D k) (found : Option (StreamOf D k)) (s s' : S)
          → visit_next
              (resource_type k)
              (equivalent D double_eq k)
              (node.remove k)
              (node.update k)
              (node.add k)
              entry
              found
              s
            ≡ (ok tt, s')
          → view l s' j ≡ view l s j
      unfolding visit_next
      visit_next-keeps (i, x) none s s' h =
          runtime.add_keeps k l x s s' different
            (rethrow-ok (reconcile_error (resource_type k) "add" i) (node.add k x) s s' h) j
      visit_next-keeps (i, x) (some c) s s' h = rw (← pure-ok s s' h)

      reconcile_kind-keeps :
          (s s' : S)
          → reconcile_kind double_eq node arrange current next k s ≡ (ok tt, s')
          → view l s' j ≡ view l s j
      unfolding reconcile_kind reconcile_list
      reconcile_kind-keeps s s' h =
          let body_1 = λ (entry : String × StreamOf D k).
            visit_current (resource_type k) (equivalent D double_eq k) (node.remove k)
              (node.update k) (node.add k) entry (in_next k entry.0) in
          let body_2 = λ (entry : String × StreamOf D k).
            visit_next (resource_type k) (equivalent D double_eq k) (node.remove k) (node.update k)
              (node.add k) entry (in_current k entry.0) in
          let xs = arrange k (make_map (id_of D k) (streams D k current)) in
          let ys = arrange k (make_map (id_of D k) (streams D k next)) in
          let (t, first, second) = >>-ok (for_each body_1 xs) (for_each body_2 ys) s s' h in
          for_each-keeps (λ u. view l u j) body_2
            (λ x u u' e. visit_next-keeps x (in_current k x.0) u u' e) ys t s' second
          ∙ for_each-keeps (λ u. view l u j) body_1
              (λ x u u' e. visit_current-keeps x (in_next k x.0) u u' e) xs s t first

    abbrev expected : (k : Kind) → String → Option (StreamOf D k) → Option (StreamOf D k)
    expected k j o =
        reconciled (equivalent D double_eq k) (plain D k) (in_current k j) (in_next k j) o

    for_kinds-view :
        (ks : List Kind)
        → DistinctKinds ks
        → (s s' : S)
        → for_each (reconcile_kind double_eq node arrange current next) ks s ≡ (ok tt, s')
        → (k : Kind) (j : String)
        → view k s' j ≡ (if listed k ks then expected k j (view k s j) else view k s j)
    for_kinds-view [] d s s' h k j = rw (← pure-ok s s' h)
    for_kinds-view (l ∷ ks) d s s' h k j =
        let (t, first, rest) =
          >>-ok (reconcile_kind double_eq node arrange current next l)
            (for_each (reconcile_kind double_eq node arrange current next) ks) s s' h in
        let later : view k s' j ≡ (if listed k ks then expected k j (view k t j) else view k t j) =
          for_kinds-view ks d.1 t s' rest k j in
        elim (Bool-cases (same_kind l k)) [
          | inl e ↦
              let p : l ≡ k = (same_kind_iff l k).0 e in
              let off : listed k ks ≡ false = subst (λ m. listed m ks ≡ false) p d.0 in
              let here : view k t j ≡ expected k j (view k s j) =
                subst (λ m. view m t j ≡ expected m j (view m s j)) p
                  (reconcile_kind-view l s t first j) in
              rw (e, later, off) here
          | inr e ↦ rw (
            e,
            later,
            reconcile_kind-keeps l k (λ p. cc (e, (same_kind_iff l k).1 p)) j s t first,
          )
        ]

    sync_clock-keeps :
        (s s' : S)
        → sync_clock double_eq node current next s ≡ (ok tt, s')
        → (k : Kind) (j : String) → view k s' j ≡ view k s j
    unfolding sync_clock
    sync_clock-keeps s s' h k j =
        elim (Bool-cases (equivalent_ptp_clock double_eq current.ptp_clock next.ptp_clock)) [
          | inl e ↦ rw (← pure-ok s s' (rw e at h))
          | inr e ↦
              runtime.clock_keeps (effective_gmid next.ptp_clock) (effective_locked next.ptp_clock)
                (effective_ptp_domain next.ptp_clock) s s' (rw e at h) k j
        ]

    sync_devices-keeps :
        (s s' : S)
        → sync_devices node current next s ≡ (ok tt, s')
        → (k : Kind) (j : String) → view k s' j ≡ view k s j
    unfolding sync_devices
    sync_devices-keeps s s' h k j = elim (Bool-cases (same_devices current.devices next.devices)) [
      | inl e ↦ rw (← pure-ok s s' (rw e at h))
      | inr e ↦ runtime.interfaces_keep (map device_to_interface next.devices) s s' (rw e at h) k j
    ]

  -- On a node that keeps its contract, with maps walked once in some order, where `apply_snapshot`
  -- returns: a stream that only the current map has is gone, one that only the next map has is held,
  -- with its sender id read as empty, one of both maps is in the same way the next one if they are
  -- not equivalent and otherwise as before, and all else is as before.
  pub apply_snapshot-view :
      (current_snapshot : Option (SnapshotDto D)) (next : SnapshotDto D) (s s' : S)
      → apply_snapshot double_eq node arrange current_snapshot next s ≡ (ok tt, s')
      → (k : Kind) (j : String)
      → view k s' j ≡ expected (value_or_empty current_snapshot) next k j (view k s j)
  unfolding apply_snapshot
  apply_snapshot-view current_snapshot next s s' h k j =
      let current = value_or_empty current_snapshot in
      let streams_part = for_each (reconcile_kind double_eq node arrange current next) kinds in
      let devices_part = sync_devices node current next in
      let (t, clock, rest) =
        >>-ok (sync_clock double_eq node current next) (devices_part >> streams_part) s s' h in
      let (u, devices, loops) = >>-ok devices_part streams_part t s' rest in
      let unchanged : view k u j ≡ view k s j =
        sync_devices-keeps current next t u devices k j
        ∙ sync_clock-keeps current next s t clock k j in
      rw
        (for_kinds-view current next kinds distinct_kinds u s' loops k j, listed_kinds k, unchanged)
    where
      distinct_kinds : DistinctKinds kinds
      distinct_kinds = ground arith

      listed_kinds : (k : Kind) → listed k kinds ≡ true
      listed_kinds video_receiver = refl
      listed_kinds _ = refl
