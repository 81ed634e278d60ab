-- ===== src/Reconcile/Drain.antt =====
-- `drain_all` of src/daemon/reconcile_engine.cpp.
use nmos_client.Base.{
  String, Bool, true, false, List, [], ◌∷◌, Option, none, some, ok, ◌≡◌, refl, ◌==◌, ◌||◌,
  if◌then◌else◌, arith, Bool-cases, inl, inr, subst, string_eq,
}
use nmos_client.Base.Exec.{for_each, >>-ok, pure-ok, for_each-keeps}
use nmos_client.Dto.Types.{SnapshotDto}
use nmos_client.Reconcile.Kind.{
  Kind, StreamOf, id_of, streams, same_kind, same_kind_iff, listed, DistinctKinds, video_receiver,
}
use nmos_client.Reconcile.Runtime.{NodeOps, IsRuntime}
use nmos_client.Reconcile.Engine.{drain_kind, drain_all, kinds}

-- Whether a stream of the list has the id `j`.
abbrev pub occurs : {T : Type 0} → (T → String) → String → List T → Bool
occurs id j [] = false
occurs id j (x ∷ xs) = id x == j || occurs id j xs

module _ {D S : Type 0} (node : NodeOps D S)
    (view : (k : Kind) → S → String → Option (StreamOf D k)) (runtime : IsRuntime node view) where
  module _ (snapshot : SnapshotDto D) where
    removals-view :
        (k : Kind) (xs : List (StreamOf D k)) (s s' : S)
        → for_each (λ x. node.remove k (id_of D k x)) xs s ≡ (ok tt, s')
        → (j : String) → view k s' j ≡ (if occurs (id_of D k) j xs then none else view k s j)
    removals-view k [] s s' h j = rw (← pure-ok s s' h)
    removals-view k (x ∷ xs) s s' h j =
        let (t, e, rest) =
          >>-ok (node.remove k (id_of D k x)) (for_each (λ y. node.remove k (id_of D k y)) xs) s s'
            h in
        combine t (runtime.remove_view k (id_of D k x) s t e j) (removals-view k xs t s' rest j)
      where
        combine :
            (t : S)
            → view k t j ≡ (if id_of D k x == j then none else view k s j)
            → view k s' j ≡ (if occurs (id_of D k) j xs then none else view k t j)
            → view k s' j ≡ (if occurs (id_of D k) j (x ∷ xs) then none else view k s j)
        combine t first later = ground arith

    abbrev left : (k : Kind) → String → Option (StreamOf D k) → Option (StreamOf D k)
    left k j o = if occurs (id_of D k) j (streams D k snapshot) then none else o

    drain_kinds-view :
        (ks : List Kind)
        → DistinctKinds ks
        → (s s' : S) → for_each (drain_kind node snapshot) ks s ≡ (ok tt, s')
        → (k : Kind) (j : String)
        → view k s' j ≡ (if listed k ks then left k j (view k s j) else view k s j)
    unfolding drain_kind
    drain_kinds-view [] d s s' h k j = rw (← pure-ok s s' h)
    drain_kinds-view (l ∷ ks) d s s' h k j =
        let (t, first, rest) =
          >>-ok (drain_kind node snapshot l) (for_each (drain_kind node snapshot) ks) s s' h in
        let later : view k s' j ≡ (if listed k ks then left k j (view k t j) else view k t j) =
          drain_kinds-view ks d.1 t s' rest k j in
        elim (Bool-cases (same_kind l k)) [
          | inl e ↦
              let p : l ≡ k = (same_kind_iff l k).0 e in
              let off : listed k ks ≡ false = subst (λ m. listed m ks ≡ false) p d.0 in
              let here : view k t j ≡ left k j (view k s j) =
                subst (λ m. view m t j ≡ left m j (view m s j)) p
                  (removals-view l (streams D l snapshot) s t first j) in
              rw (e, later, off) here
          | inr e ↦ rw (
            e,
            later,
            for_each-keeps (λ u. view k u j) (λ x. node.remove l (id_of D l x))
                (λ x u u' q.
                  runtime.remove_keeps l k (id_of D l x) u u' (λ p. cc (e, (same_kind_iff l k).1 p))
                    q j)
                (streams D l snapshot) s t first,
          )
        ]

  -- On a node that keeps its contract, where `drain_all` returns, no stream of the last snapshot
  -- is held any more, under any of the six kinds, and every other stream is held as before.
  pub drain_all-view :
      (snapshot : SnapshotDto D) (s s' : S)
      → drain_all node (some snapshot) s ≡ (ok tt, s')
      → (k : Kind) (j : String)
      → view k s' j ≡ (if occurs (id_of D k) j (streams D k snapshot) then none else view k s j)
  unfolding drain_all
  drain_all-view snapshot s s' h k j =
      rw (drain_kinds-view snapshot kinds (ground arith) s s' h k j, listed_kinds k)
    where
      listed_kinds : (k : Kind) → listed k kinds ≡ true
      listed_kinds video_receiver = refl
      listed_kinds _ = refl
