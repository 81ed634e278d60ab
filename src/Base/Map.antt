-- ===== src/Base/Map.antt =====
-- `std::unordered_map` as the source uses it: `emplace` keeps the first entry of a key, and `find`.
use nmos_client.Base.Lists.{All}
use mathlib.Core.Logic.{inl, inr}
use mathlib.Core.Path.{◌≡◌, refl}
use mathlib.Core.Option.{Option, none, some}
use mathlib.Core.List.{List, [], ◌∷◌}
use native.Mathlib.Omega.{arith}
use nmos_client.Base.Tests.{if◌then◌else◌, or_else, Bool-cases}
use nmos_client.Base.Equality.{Eq, ◌==◌, ==-refl}

module _ {ℓ κ} {K : Type ℓ} {V : Type κ} ⦃e : Eq K⦄ where
  unfoldable pub find : K → List (K × V) → Option V
  find k [] = none
  find k ((j, v) ∷ m) = if j == k then some v else find k m

  unfoldable pub emplace : K → V → List (K × V) → List (K × V)
  emplace k v [] = (k, v) ∷ []
  emplace k v ((j, w) ∷ m) = if j == k then (j, w) ∷ m else (j, w) ∷ emplace k v m

  -- `for (...) map.emplace(key, value);`, from the map `m`.
  unfoldable pub emplace_all : List (K × V) → List (K × V) → List (K × V)
  unfolding emplace
  emplace_all m [] = m
  emplace_all m ((k, v) ∷ l) = emplace_all (emplace k v m) l

  pub find-emplace :
      (k j : K) (v : V) (m : List (K × V))
      → find j (emplace k v m) ≡ or_else (find j m) (if k == j then some v else none)
  unfolding find emplace
  find-emplace k j v [] = refl
  find-emplace k j v ((i, w) ∷ m) =
      ground (arith, e.same_iff i k, e.same_iff i j, e.same_iff k j, find-emplace k j v m)

  -- The map built from a list finds the first entry of a key.
  pub find-emplace_all :
      (j : K) (m l : List (K × V)) → find j (emplace_all m l) ≡ or_else (find j m) (find j l)
  unfolding find emplace_all
  find-emplace_all j m [] = ground arith
  find-emplace_all j m ((k, v) ∷ l) =
      ground (arith, find-emplace_all j (emplace k v m) l, find-emplace k j v m)

  -- No key stands twice.
  abbrev pub Distinct : List (K × V) → Type κ
  Distinct [] = Unit
  Distinct ((k, v) ∷ m) = (find k m ≡ none) × Distinct m

  emplace-Distinct : (k : K) (v : V) (m : List (K × V)) → Distinct m → Distinct (emplace k v m)
  unfolding find emplace
  emplace-Distinct k v [] h = (refl, tt)
  emplace-Distinct k v ((j, w) ∷ m) h = elim (Bool-cases (j == k)) [
    | inl p ↦ rw p h
    | inr p ↦ rw p (
      ground (arith, find-emplace k j v m, e.same_iff k j, e.same_iff j k, h.0),
      emplace-Distinct k v m h.1,
    )
  ]

  pub emplace_all-Distinct : (m l : List (K × V)) → Distinct m → Distinct (emplace_all m l)
  unfolding emplace_all
  emplace_all-Distinct m [] h = h
  emplace_all-Distinct m ((k, v) ∷ l) h =
      emplace_all-Distinct (emplace k v m) l (emplace-Distinct k v m h)

  -- In a map without repeated keys each entry is found under its key.
  pub entries-find :
      (m l : List (K × V))
      → ((k : K) (v : V) → find k m ≡ some v → find k l ≡ some v)
      → Distinct m
      → All (λ (kv : K × V). find kv.0 l ≡ some kv.1) m
  unfolding find
  entries-find [] l h d = tt
  entries-find ((k, v) ∷ m) l h d = (
    h k v (rw (==-refl k)),
    entries-find m l (λ j w p. h j w (ground (arith, e.same_iff k j, d.0))) d.1,
  )
