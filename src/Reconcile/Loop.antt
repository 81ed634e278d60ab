-- ===== src/Reconcile/Loop.antt =====
-- Loops of src/daemon/reconcile_engine.cpp over a map whose bodies each change one id: what holds of
-- an id after the loop is what the body for that id did.
use nmos_client.Base.{
  String, List, [], ◌∷◌, Option, none, some, Except, ok, ◌≡◌, sym, ap, ◌==◌, string_eq, string_iff,
  if◌then◌else◌, arith, Bool-cases, inl, inr, ==-refl,
}
use nmos_client.Base.Map.{find, Distinct}
use nmos_client.Base.Exec.{Exec, for_each, >>-ok}

module _ {S T V : Type 0} (view : S → String → Option V) where
  -- The stored stream of an id after the loop, from the entry of the id and the stream before.
  abbrev pub after : (String → T → Option V → Option V) → String → Option T → Option V → Option V
  after out j none o = o
  after out j (some x) o = out j x o

  module _ (body : String × T → Exec S (Unit {0})) (out : String → T → Option V → Option V)
      (P : String → T → Type 0)
      (spec : (id : String) (x : T) (s s' : S)
        → P id x
        → body (id, x) s ≡ (ok tt, s')
        → (j : String) → view s' j ≡ (if id == j then out id x (view s j) else view s j)) where
    pub for_each-view :
        (m : List (String × T)) (s s' : S)
        → Distinct m
        → ((id : String) (x : T) → find id m ≡ some x → P id x)
        → for_each body m s ≡ (ok tt, s')
        → (j : String) → view s' j ≡ after out j (find j m) (view s j)
    unfolding find
    for_each-view [] s s' d p h j =
        ap (λ t. view t j) (sym (ap (λ (r : Except (Unit {0}) × S). r.1) h))
    for_each-view ((id, x) ∷ m) s s' d p h j =
        let (t, e, rest) = >>-ok (body (id, x)) (for_each body m) s s' h in
        combine t (spec id x s t (p id x (rw (==-refl id))) e j)
          (for_each-view m t s' d.1 (λ k y q. p k y (later k y q)) rest j)
      where
        later : (k : String) (y : T) → find k m ≡ some y → find k ((id, x) ∷ m) ≡ some y
        later k y q = ground (arith, string_iff id k, d.0)

        combine :
            (t : S)
            → view t j ≡ (if id == j then out id x (view s j) else view s j)
            → view s' j ≡ after out j (find j m) (view t j)
            → view s' j ≡ after out j (find j ((id, x) ∷ m)) (view s j)
        combine t first last = elim (Bool-cases (id == j)) [
          | inl same ↦ ground (arith, string_iff id j, d.0)
          | inr other ↦ ground (arith, string_iff id j)
        ]
