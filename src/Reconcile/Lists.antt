-- ===== src/Reconcile/Lists.antt =====
-- One call of `reconcile_list` of src/daemon/reconcile_engine.cpp that returns: what the runtime then
-- holds under each id.
use nmos_client.Reconcile.Kind.{plain}
use nmos_client.Base.{
  String, Bool, List, [], ◌∷◌, map, Option, none, some, ok, ◌≡◌, refl, sym, ◌∙◌, ap, ◌==◌,
  string_eq, string_iff, if◌then◌else◌, arith, Bool-cases, inl, inr,
}
use nmos_client.Base.Map.{find, Distinct, find-emplace_all, emplace_all-Distinct}
use nmos_client.Base.Exec.{Exec, for_each, >>-ok, rethrow-ok, pure-ok}
use nmos_client.Reconcile.Engine.{
  Order, ResourceMap, make_map, reconcile_error, visit_current, visit_next, reconcile_list,
}
use nmos_client.Reconcile.Loop.{after, for_each-view}

-- An unordered map is walked once, in some order.
pub record IsOrder {T : Type 0} (arrange : Order T) : Type 0 where
  pub distinct : (m : ResourceMap T) → Distinct m → Distinct (arrange m)
  pub same : (m : ResourceMap T) → Distinct m → (k : String) → find k (arrange m) ≡ find k m

module _ {T : Type 0} (id : T → String) where
  pub find-make_map :
      (k : String) (items : List T)
      → find k (make_map id items) ≡ find k (map (λ item. (id item, item)) items)
  unfolding make_map find
  find-make_map k items = find-emplace_all k [] (map (λ item. (id item, item)) items)

  pub make_map-Distinct : (items : List T) → Distinct (make_map id items)
  unfolding make_map
  make_map-Distinct items = emplace_all-Distinct [] (map (λ item. (id item, item)) items) tt

  entries-id :
      (k : String) (items : List T) (x : T)
      → find k (map (λ item. (id item, item)) items) ≡ some x
      → id x ≡ k
  unfolding find
  entries-id k [] x h = cc
  entries-id k (y ∷ items) x h = ground (arith, string_iff (id y) k, entries-id k items x)

  -- What a map holds under a key has that id.
  pub make_map-id :
      (k : String) (items : List T) (x : T) → find k (make_map id items) ≡ some x → id x ≡ k
  make_map-id k items x h = entries-id k items x (sym (find-make_map k items) ∙ h)

-- What is held under an id after both loops, from what the current map, the next map and the runtime
-- held under it.
abbrev pub reconciled :
    {T : Type 0} → (T → T → Bool) → (T → T) → Option T → Option T → Option T → Option T
reconciled equivalent plain none none o = o
reconciled equivalent plain none (some n) o = some (plain n)
reconciled equivalent plain (some c) none o = none
reconciled equivalent plain (some c) (some n) o = if equivalent c n then o else some (plain n)

module _ {S T : Type 0} (resource_type : String) (equivalent : T → T → Bool)
    (remove : String → Exec S (Unit {0})) (update add : T → Exec S (Unit {0})) (id : T → String)
    (plain : T → T) (view : S → String → Option T)
    (remove_view : (i : String) (s s' : S)
      → remove i s ≡ (ok tt, s')
      → (j : String) → view s' j ≡ (if i == j then none else view s j))
    (update_view : (x : T) (s s' : S)
      → update x s ≡ (ok tt, s')
      → (j : String) → view s' j ≡ (if id x == j then some (plain x) else view s j))
    (add_view : (x : T) (s s' : S)
      → add x s ≡ (ok tt, s')
      → (j : String) → view s' j ≡ (if id x == j then some (plain x) else view s j)) where
  -- What the two loops leave under the id of a stream `x`, from what was found under the id in the
  -- other map and what was held.
  abbrev pub after_current : Option T → T → Option T → Option T
  after_current none x o = none
  after_current (some n) x o = if equivalent x n then o else some (plain n)

  abbrev pub after_next : Option T → T → Option T → Option T
  after_next none x o = some (plain x)
  after_next (some c) x o = o

  visit_current-view :
      (i : String) (x : T) (found : Option T) (s s' : S)
      → ((n : T) → found ≡ some n → id n ≡ i)
      → visit_current resource_type equivalent remove update add (i, x) found s ≡ (ok tt, s')
      → (j : String) → view s' j ≡ (if i == j then after_current found x (view s j) else view s j)
  unfolding visit_current
  visit_current-view i x none s s' p h j =
      remove_view i s s' (rethrow-ok (reconcile_error resource_type "remove" i) (remove i) s s' h) j
  visit_current-view i x (some n) s s' p h j = elim (Bool-cases (equivalent x n)) [
    | inl e ↦ rw (e, ← pure-ok s s' (rw e at h)) (ground arith)
    | inr e ↦
        rw (e, ← p n refl)
          (update_view n s s'
            (rethrow-ok (reconcile_error resource_type "update" i) (update n) s s' (rw e at h)) j)
  ]

  visit_next-view :
      (i : String) (x : T) (found : Option T) (s s' : S)
      → id x ≡ i
      → visit_next resource_type equivalent remove update add (i, x) found s ≡ (ok tt, s')
      → (j : String) → view s' j ≡ (if i == j then after_next found x (view s j) else view s j)
  unfolding visit_next
  visit_next-view i x none s s' p h j =
      rw (← p)
        (add_view x s s' (rethrow-ok (reconcile_error resource_type "add" i) (add x) s s' h) j)
  visit_next-view i x (some c) s s' p h j = rw (← pure-ok s s' h) (ground arith)

  module _ (arrange : Order T) (order : IsOrder arrange) (current next : List T) where
    abbrev current_map : ResourceMap T
    current_map = make_map id current

    abbrev next_map : ResourceMap T
    next_map = make_map id next

    find-arranged :
        (items : List T) (k : String)
        → find k (arrange (make_map id items)) ≡ find k (make_map id items)
    find-arranged items k = order.same (make_map id items) (make_map-Distinct id items) k

    after-at :
        (out : String → T → Option T → Option T) (j : String) (n o : Option T)
        → after view out j n o ≡ after view (λ i. out j) j n o
    after-at out j none o = refl
    after-at out j (some x) o = refl

    both_loops :
        (j : String) (c n o : Option T)
        → after view (λ i x. after_next c x) j n (after view (λ i x. after_current n x) j c o)
          ≡ reconciled equivalent plain c n o
    both_loops j none none o = refl
    both_loops j none (some n) o = refl
    both_loops j (some c) none o = refl
    both_loops j (some c) (some n) o = refl

    pub reconcile_list-view :
        (s s' : S)
        → reconcile_list resource_type equivalent remove update add arrange id current next s
          ≡ (ok tt, s')
        → (j : String)
        → view s' j ≡ reconciled equivalent plain (find j current_map) (find j next_map) (view s j)
    unfolding reconcile_list
    reconcile_list-view s s' h j =
        let body_1 = λ (entry : String × T).
          visit_current resource_type equivalent remove update add entry (find entry.0 next_map) in
        let body_2 = λ (entry : String × T).
          visit_next resource_type equivalent remove update add entry (find entry.0 current_map) in
        let (t, first, second) =
          >>-ok (for_each body_1 (arrange current_map)) (for_each body_2 (arrange next_map)) s s'
            h in
        let in_t : view t j
            ≡ after view (λ i x. after_current (find i next_map) x) j (find j (arrange current_map))
                (view s j) =
          for_each-view view body_1 (λ i x. after_current (find i next_map) x) (λ i x. Unit {0})
            (λ i x u u' p q.
              visit_current-view i x (find i next_map) u u' (make_map-id id i next) q)
            (arrange current_map) s t (order.distinct current_map (make_map-Distinct id current))
            (λ i x p. tt) first j in
        let in_s' : view s' j
            ≡ after view (λ i x. after_next (find i current_map) x) j (find j (arrange next_map))
                (view t j) =
          for_each-view view body_2 (λ i x. after_next (find i current_map) x) (λ i x. id x ≡ i)
            (λ i x u u' p q. visit_next-view i x (find i current_map) u u' p q) (arrange next_map) t
            s' (order.distinct next_map (make_map-Distinct id next))
            (λ i x p. make_map-id id i next x (sym (find-arranged next i) ∙ p)) second j in
        rw (in_s', in_t, find-arranged next j, find-arranged current j)
          (after-at (λ i x. after_next (find i current_map) x) j (find j next_map)
              (after view (λ i x. after_current (find i next_map) x) j (find j current_map)
                (view s j))
            ∙ ap (after view (λ i x. after_next (find j current_map) x) j (find j next_map)) (
                after-at (λ i x. after_current (find i next_map) x) j (find j current_map)
                  (view s j))
            ∙ both_loops j (find j current_map) (find j next_map) (view s j))
