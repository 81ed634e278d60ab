-- ===== src/Reconcile/InStep.antt =====
-- `apply_snapshot` of src/daemon/reconcile_engine.cpp, where it throws or returns: each stream that
-- the runtime holds stays the current or the next one.
use nmos_client.Base.{
  String, Bool, map, Option, none, some, ok, err, ◌≡◌, ◌≢◌, refl, sym, ◌∙◌, ◌⊎◌, subst, ◌==◌,
  if◌then◌else◌, arith, Bool-cases, inl, inr, string_eq, string_iff, All_any,
}
use nmos_client.Base.Map.{find, entries-find}
use nmos_client.Base.Exec.{Exec, for_each, ◌>>◌, Keeps, Keeps->>, Keeps-by, for_each-Keeps}
use nmos_client.Dto.Types.{SnapshotDto}
use nmos_client.Dto.Equivalent.{same_devices, equivalent_ptp_clock}
use nmos_client.Dto.Ptp.{effective_gmid, effective_locked, effective_ptp_domain}
use nmos_client.Reconcile.Kind.{
  Kind, StreamOf, id_of, streams, equivalent, resource_type, same_kind, same_kind_iff, plain,
}
use nmos_client.Reconcile.Runtime.{
  NodeOps, IsRuntime, set_ptp_clock, set_runtime_devices, device_to_interface,
}
use nmos_client.Reconcile.Engine.{
  Order, ResourceMap, make_map, visit_current, visit_next, reconcile_list, reconcile_kind, kinds,
  value_or_empty, sync_clock, sync_devices, apply_snapshot,
}
use nmos_client.Reconcile.Lists.{IsOrder, make_map-id, make_map-Distinct}

abbrev pub map_option : {A B : Type 0} → (A → B) → Option A → Option B
map_option f none = none
map_option f (some x) = some (f x)

-- What is held is what one of the two maps holds, sender ids aside.
abbrev pub InStep : {T : Type 0} → (T → T) → Option T → Option T → Option T → Type 0
InStep plain c n o = (o ≡ map_option plain c) ⊎ (o ≡ map_option plain n)

module _ {D S : Type 0} (double_eq : D → D → Bool) (node : NodeOps D S)
    (arrange : (k : Kind) → Order (StreamOf D k)) (orders : (k : Kind) → IsOrder (arrange k))
    (view : (k : Kind) → S → String → Option (StreamOf D k)) (runtime : IsRuntime node view) where
  module _ (current next : SnapshotDto D) (j : String) where
    abbrev I : Kind → S → Type 0
    I k s =
        InStep (plain D k) (find j (make_map (id_of D k) (streams D k current)))
          (find j (make_map (id_of D k) (streams D k next))) (view k s j)

    abbrev next_map : (k : Kind) → ResourceMap (StreamOf D k)
    next_map k = make_map (id_of D k) (streams D k next)

    I-same : (k : Kind) (s s' : S) → view k s' j ≡ view k s j → I k s → I k s'
    I-same k s s' e (inl p) = inl (e ∙ p)
    I-same k s s' e (inr p) = inr (e ∙ p)

    own_remove :
        (k : Kind) (i : String) → find i (next_map k) ≡ none → Keeps (I k) (node.remove k i)
    own_remove k i p =
        Keeps-by (I k) (node.remove k i)
          (λ s s' e h. done s s' (runtime.remove_view k i s s' e j) h)
          (λ s s' x e h. I-same k s s' (runtime.remove_fails k i s s' x e k j) h)
      where
        done : (s s' : S) → view k s' j ≡ (if i == j then none else view k s j) → I k s → I k s'
        done s s' v h = elim (Bool-cases (i == j)) [
          | inl e ↦ inr (ground (arith, string_iff i j))
          | inr e ↦ I-same k s s' (ground arith) h
        ]

    own_put :
        (k : Kind) (x : StreamOf D k) (m : Exec S (Unit {0}))
        → ((s s' : S)
            → m s ≡ (ok tt, s')
            → view k s' j ≡ (if id_of D k x == j then some (plain D k x) else view k s j))
        → ((s s' : S) (e : String) → m s ≡ (err e, s') → view k s' j ≡ view k s j)
        → find (id_of D k x) (next_map k) ≡ some x
        → Keeps (I k) m
    own_put k x m put fails p =
        Keeps-by (I k) m (λ s s' e h. done s s' (put s s' e) h)
          (λ s s' y e h. I-same k s s' (fails s s' y e) h)
      where
        done :
            (s s' : S)
            → view k s' j ≡ (if id_of D k x == j then some (plain D k x) else view k s j)
            → I k s
            → I k s'
        done s s' v h = elim (Bool-cases (id_of D k x == j)) [
          | inl e ↦ inr (ground (arith, string_iff (id_of D k x) j))
          | inr e ↦ I-same k s s' (ground arith) h
        ]

    -- A call about kind `l` keeps `I k`: if `k` is `l` by the first proof, otherwise by the frame.
    any_kind :
        (l k : Kind) (m : Exec S (Unit {0}))
        → Keeps (I l) m
        → (l ≢ k → (s s' : S) → m s ≡ (ok tt, s') → view k s' j ≡ view k s j)
        → ((s s' : S) (e : String) → m s ≡ (err e, s') → view k s' j ≡ view k s j)
        → Keeps (I k) m
    any_kind l k m own frame fails = elim (Bool-cases (same_kind l k)) [
      | inl e ↦ subst (λ n. Keeps (I n) m) ((same_kind_iff l k).0 e) own
      | inr e ↦
          Keeps-by (I k) m
            (λ s s' p h. I-same k s s' (frame (λ q. cc (e, (same_kind_iff l k).1 q)) s s' p) h)
            (λ s s' x p h. I-same k s s' (fails s s' x p) h)
    ]

    remove-Keeps :
        (l k : Kind) (i : String) → find i (next_map l) ≡ none → Keeps (I k) (node.remove l i)
    remove-Keeps l k i p =
        any_kind l k (node.remove l i) (own_remove l i p)
          (λ d s s' e. runtime.remove_keeps l k i s s' d e j)
          (λ s s' x e. runtime.remove_fails l i s s' x e k j)

    update-Keeps :
        (l k : Kind) (x : StreamOf D l)
        → find (id_of D l x) (next_map l) ≡ some x
        → Keeps (I k) (node.update l x)
    update-Keeps l k x p =
        any_kind l k (node.update l x)
          (own_put l x (node.update l x) (λ s s' e. runtime.update_view l x s s' e j)
            (λ s s' y e. runtime.update_fails l x s s' y e l j) p)
          (λ d s s' e. runtime.update_keeps l k x s s' d e j)
          (λ s s' y e. runtime.update_fails l x s s' y e k j)

    add-Keeps :
        (l k : Kind) (x : StreamOf D l)
        → find (id_of D l x) (next_map l) ≡ some x
        → Keeps (I k) (node.add l x)
    add-Keeps l k x p =
        any_kind l k (node.add l x)
          (own_put l x (node.add l x) (λ s s' e. runtime.add_view l x s s' e j)
            (λ s s' y e. runtime.add_fails l x s s' y e l j) p)
          (λ d s s' e. runtime.add_keeps l k x s s' d e j)
          (λ s s' y e. runtime.add_fails l x s s' y e k j)

    visit_current-Keeps :
        (l k : Kind) (entry : String × StreamOf D l) (found : Option (StreamOf D l))
        → find entry.0 (next_map l) ≡ found
        → Keeps (I k) (
            visit_current
              (resource_type l)
              (equivalent D double_eq l)
              (node.remove l)
              (node.update l)
              (node.add l)
              entry
              found)
    unfolding visit_current
    visit_current-Keeps l k (i, x) none p s h = remove-Keeps l k i p s h
    visit_current-Keeps l k (i, x) (some n) p s h =
        elim (Bool-cases (equivalent D double_eq l x n)) [
          | inl e ↦ rw e h
          | inr e ↦
              rw e
                (update-Keeps l k n (rw (make_map-id (id_of D l) i (streams D l next) n p) p) s h)
        ]

    visit_next-Keeps :
        (l k : Kind) (entry : String × StreamOf D l) (found : Option (StreamOf D l))
        → find entry.0 (next_map l) ≡ some entry.1
        → Keeps (I k) (
            visit_next
              (resource_type l)
              (equivalent D double_eq l)
              (node.remove l)
              (node.update l)
              (node.add l)
              entry
              found)
    unfolding visit_next
    visit_next-Keeps l k (i, x) none p s h =
        add-Keeps l k x (rw (make_map-id (id_of D l) i (streams D l next) x p) p) s h
    visit_next-Keeps l k (i, x) (some c) p s h = h

    reconcile_kind-Keeps :
        (l k : Kind) → Keeps (I k) (reconcile_kind double_eq node arrange current next l)
    unfolding reconcile_kind reconcile_list
    reconcile_kind-Keeps l k =
        let xs = arrange l (make_map (id_of D l) (streams D l current)) in
        let ys = arrange l (next_map l) in
        let body_1 = λ (entry : String × StreamOf D l).
          visit_current (resource_type l) (equivalent D double_eq l) (node.remove l) (node.update l)
            (node.add l) entry (find entry.0 (next_map l)) in
        let body_2 = λ (entry : String × StreamOf D l).
          visit_next (resource_type l) (equivalent D double_eq l) (node.remove l) (node.update l)
            (node.add l) entry (find entry.0 (make_map (id_of D l) (streams D l current))) in
        let unique = make_map-Distinct (id_of D l) (streams D l next) in
        Keeps->> (I k) (for_each body_1 xs) (for_each body_2 ys)
          (for_each-Keeps (I k) (λ entry. Unit {0}) body_1
            (λ entry p. visit_current-Keeps l k entry (find entry.0 (next_map l)) refl) xs
            (All_any xs))
          (for_each-Keeps (I k)
            (λ (entry : String × StreamOf D l). find entry.0 (next_map l) ≡ some entry.1) body_2
            (λ entry p.
              visit_next-Keeps l k entry (find entry.0 (make_map (id_of D l) (streams D l current)))
                p)
            ys
            (entries-find ys (next_map l) (λ i x p. sym ((orders l).same (next_map l) unique i) ∙ p)
              ((orders l).distinct (next_map l) unique)))

    clock-Keeps : (k : Kind) → Keeps (I k) (sync_clock double_eq node current next)
    unfolding sync_clock set_ptp_clock
    clock-Keeps k s h =
        elim (Bool-cases (equivalent_ptp_clock double_eq current.ptp_clock next.ptp_clock)) [
          | inl e ↦ rw e h
          | inr e ↦ rw e (
              Keeps-by (I k)
                (node.set_ptp_clock (effective_gmid next.ptp_clock)
                  (effective_locked next.ptp_clock) (effective_ptp_domain next.ptp_clock))
                (λ s s' p. I-same k s s' (runtime.clock_keeps _ _ _ s s' p k j))
                (λ s s' x p. I-same k s s' (runtime.clock_fails _ _ _ s s' x p k j)) s h)
        ]

    devices-Keeps : (k : Kind) → Keeps (I k) (sync_devices node current next)
    unfolding sync_devices set_runtime_devices
    devices-Keeps k s h = elim (Bool-cases (same_devices current.devices next.devices)) [
      | inl e ↦ rw e h
      | inr e ↦ rw e (
          Keeps-by (I k) (node.set_runtime_interfaces (map device_to_interface next.devices))
            (λ s s' p. I-same k s s' (runtime.interfaces_keep _ s s' p k j))
            (λ s s' x p. I-same k s s' (runtime.interfaces_fail _ s s' x p k j)) s h)
    ]

  -- On a node that keeps its contract, with maps walked once in some order: if under a kind and an
  -- id the node holds what the current or the next snapshot's map holds there, with the sender id of
  -- a sender emptied, it does so after `apply_snapshot` too, whether that returns or throws half way.
  pub apply_snapshot-InStep :
      (current_snapshot : Option (SnapshotDto D)) (next : SnapshotDto D) (k : Kind) (j : String)
      (s : S)
      → InStep
          (plain D k)
          (find j (make_map (id_of D k) (streams D k (value_or_empty current_snapshot))))
          (find j (make_map (id_of D k) (streams D k next)))
          (view k s j)
      → InStep
          (plain D k)
          (find j (make_map (id_of D k) (streams D k (value_or_empty current_snapshot))))
          (find j (make_map (id_of D k) (streams D k next)))
          (view k (apply_snapshot double_eq node arrange current_snapshot next s).1 j)
  unfolding apply_snapshot
  apply_snapshot-InStep current_snapshot next k j =
      let current = value_or_empty current_snapshot in
      let loops = for_each (reconcile_kind double_eq node arrange current next) kinds in
      Keeps->> (I current next j k) (sync_clock double_eq node current next)
        (sync_devices node current next >> loops) (clock-Keeps current next j k)
        (Keeps->> (I current next j k) (sync_devices node current next) loops
          (devices-Keeps current next j k)
          (for_each-Keeps (I current next j k) (λ l. Unit {0})
            (reconcile_kind double_eq node arrange current next)
            (λ l p. reconcile_kind-Keeps current next j l k) kinds (All_any kinds)))
