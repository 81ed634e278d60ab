-- ===== src/Node/Reinsert.antt =====
-- What the reinsertion of the cached streams, src/node.cpp, gives back.
use nmos_client.Base.{
  String, Bool, true, false, not, ◌&&◌, List, [], ◌∷◌, Option, none, some, Except, ok, ◌≡◌, ◌≢◌,
  refl, sym, ap, ◌∙◌, ◌==◌, string_eq, string_iff, if◌then◌else◌, or_else, Bool-cases, inl, inr,
  subst,
}
use nmos_client.Base.Exec.{>>-ok, pure-ok, for_each}
use nmos_client.Reconcile.Kind.{
  Kind, StreamOf, id_of, plain, same_kind, same_kind_iff, listed, DistinctKinds, video_receiver,
  audio_receiver, ancillary_receiver, video_sender, audio_sender, ancillary_sender,
}
use nmos_client.Reconcile.InStep.{map_option}
use nmos_client.Node.Library.{Library}
use nmos_client.Node.State.{Cache, Node, find_by_id, cached}
use nmos_client.Node.Named.{IsNamed}
use nmos_client.Node.Effect.{held_in, Effect}
use nmos_client.Node.Runtime.{add, add-Effect}
use nmos_client.Node.Restart.{
  reinsertion_order, cleared, has_senders, has_receivers, add_kind, reinsert_cached_resources,
}

-- A stream in front of a list, where the others have other ids.
in_front :
    {T : Type 0} (f : T → T) (o : Option T) (b : Bool) (x : T) (h : Option T)
    → (b ≡ true → o ≡ none)
    → or_else (map_option f o) (if b then some (f x) else h)
      ≡ or_else (map_option f (if b then some x else o)) h
in_front f none true x h e = refl
in_front f none false x h e = refl
in_front f (some z) true x h e = absurd (cc (e refl))
in_front f (some z) false x h e = refl

or_else-none : {T : Type 0} (o : Option T) → or_else o none ≡ o
or_else-none none = refl
or_else-none (some x) = refl

module _ {D : Type 0} (L : Library D) where
  -- No two streams of the list have one id.
  abbrev pub DistinctIds : (k : Kind) → List (StreamOf D k) → Type 0
  unfolding find_by_id
  DistinctIds k [] = Unit
  DistinctIds k (x ∷ xs) = (find_by_id (id_of D k) (id_of D k x) xs ≡ none) × DistinctIds k xs

  -- What a loop over the streams of one kind does.
  abbrev Added : (k : Kind) → List (StreamOf D k) → Node L → Node L → Type 0
  unfolding find_by_id
  Added k xs n n' =
      ((j : String)
        → held_in L k n'.cache j
          ≡ or_else (map_option (plain D k) (find_by_id (id_of D k) j xs)) (held_in L k n.cache j))
      × ((l : Kind) → k ≢ l → (j : String) → held_in L l n'.cache j ≡ held_in L l n.cache j)
      × IsNamed L n'.cache

  add-Added :
      (k : Kind) (xs : List (StreamOf D k)) (n n' : Node L)
      → IsNamed L n.cache
      → DistinctIds k xs
      → for_each (add L k) xs n ≡ (ok tt, n')
      → Added k xs n n'
  unfolding find_by_id
  add-Added k [] n n' named d h =
      subst (Added k [] n) (pure-ok n n' h) (λ j. refl, λ l e j. refl, named)
  add-Added k (x ∷ xs) n n' named d h =
      let (t, first, later) = >>-ok (add L k x) (for_each (add L k) xs) n n' h in
      let e =
        subst (Effect L k (id_of D k x) (some (plain D k x)) n) first (add-Effect L n named k x) in
      let (own, others, named') = add-Added k xs t n' e.keeps d.1 later in
      (
        λ j.
            own j
            ∙ ap (or_else (map_option (plain D k) (find_by_id (id_of D k) j xs))) (e.done refl j)
            ∙ front j,
        λ l q j. others l q j ∙ e.others l q j,
        named',
      )
    where
      front :
          (j : String)
          → or_else
              (map_option (plain D k) (find_by_id (id_of D k) j xs))
              (if id_of D k x == j then some (plain D k x) else held_in L k n.cache j)
            ≡ or_else
                (map_option
                  (plain D k)
                  (if id_of D k x == j then some x else find_by_id (id_of D k) j xs))
                (held_in L k n.cache j)
      front j =
          in_front (plain D k) (find_by_id (id_of D k) j xs) (id_of D k x == j) x
            (held_in L k n.cache j)
            (λ e.
              subst (λ i. find_by_id (id_of D k) i xs ≡ none) ((string_iff (id_of D k x) j).0 e)
                d.0)

  -- What the loops over several kinds do.
  add_kinds-Added :
      (c : Cache D)
      → ((k : Kind) → DistinctIds k (cached k c))
      → (ks : List Kind) (n n' : Node L) → IsNamed L n.cache
      → DistinctKinds ks
      → for_each (add_kind L c) ks n ≡ (ok tt, n')
      → (l : Kind) (j : String)
      → held_in L l n'.cache j ≡ (
          if listed l ks
          then or_else (held_in L l c j) (held_in L l n.cache j)
          else held_in L l n.cache j)
  unfolding find_by_id add
  add_kinds-Added c d [] n n' named q h l j =
      ap (λ (m : Node L). held_in L l m.cache j) (sym (pure-ok n n' h))
  add_kinds-Added c d (k ∷ ks) n n' named q h l j =
      let (t, first, later) = >>-ok (add_kind L c k) (for_each (add_kind L c) ks) n n' h in
      let (own, others, named') = add-Added k (cached k c) n t named (d k) first in
      let rest = add_kinds-Added c d ks t n' named' q.1 later in
      elim (Bool-cases (same_kind k l)) [
        | inl e ↦
            subst
              (λ l. held_in L l n'.cache j ≡ (
                if listed l (k ∷ ks)
                then or_else (held_in L l c j) (held_in L l n.cache j)
                else held_in L l n.cache j))
              ((same_kind_iff k l).0 e) (rest k j ∙ rw (q.0, (same_kind_iff k k).1 refl) (own j))
        | inr e ↦ rest l j ∙ rw (e, others l (λ p. cc (sym ((same_kind_iff k l).1 p) ∙ e)) j) refl
      ]

  cleared-IsNamed : (c : Cache D) → IsNamed L (cleared c)
  cleared-IsNamed c video_receiver = tt
  cleared-IsNamed c audio_receiver = tt
  cleared-IsNamed c ancillary_receiver = tt
  cleared-IsNamed c video_sender = tt
  cleared-IsNamed c audio_sender = tt
  cleared-IsNamed c ancillary_sender = tt

  reinsertion_order-DistinctKinds : DistinctKinds reinsertion_order
  reinsertion_order-DistinctKinds = (refl, (refl, (refl, (refl, (refl, (refl, tt))))))

  -- Where the streams of a node are reinserted without an exception, and no two streams of a kind had
  -- one id, the node holds under each kind and id what it held before, sender ids aside.
  pub reinsert_cached_resources-view :
      (n n' : Node L)
      → IsNamed L n.cache
      → ((k : Kind) → DistinctIds k (cached k n.cache))
      → reinsert_cached_resources L n ≡ (ok tt, n')
      → (k : Kind) (j : String) → held_in L k n'.cache j ≡ held_in L k n.cache j
  unfolding reinsert_cached_resources
  reinsert_cached_resources-view n n' named d h k j =
      elim (Bool-cases (not (has_senders n.cache) && not (has_receivers n.cache))) [
        | inl e ↦ ap (λ (r : Except (Unit {0}) × Node L). held_in L k r.1.cache j) (sym (rw e at h))
        | inr e ↦ reinserted (rw e at h)
      ]
    where
      at_end :
          (k : Kind)
          → (if listed k reinsertion_order
              then or_else (held_in L k n.cache j) (held_in L k (cleared n.cache) j)
              else held_in L k (cleared n.cache) j)
            ≡ held_in L k n.cache j
      at_end video_receiver = or_else-none (held_in L video_receiver n.cache j)
      at_end audio_receiver = or_else-none (held_in L audio_receiver n.cache j)
      at_end ancillary_receiver = or_else-none (held_in L ancillary_receiver n.cache j)
      at_end video_sender = or_else-none (held_in L video_sender n.cache j)
      at_end audio_sender = or_else-none (held_in L audio_sender n.cache j)
      at_end ancillary_sender = or_else-none (held_in L ancillary_sender n.cache j)

      reinserted :
          for_each (add_kind L n.cache) reinsertion_order (record n { cache = cleared n.cache })
            ≡ (ok tt, n')
          → held_in L k n'.cache j ≡ held_in L k n.cache j
      reinserted h =
          add_kinds-Added n.cache d reinsertion_order (record n { cache = cleared n.cache }) n'
            (cleared-IsNamed n.cache) reinsertion_order-DistinctKinds h k j
          ∙ at_end k
