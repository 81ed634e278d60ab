-- ===== src/Base/Exec.antt =====
-- Methods that change an object and may throw: what was written before a throw stays written, so the
-- state comes back beside the error too.
use nmos_client.Base.Lists.{All}
use nmos_client.Base.Throws.{Except, ok, err, rethrow as rethrow_value}
use mathlib.Core.Path.{◌≡◌, refl, ap, ◌∙◌, sym}
use mathlib.Core.Logic.{◌⊎◌, inl, inr}
use mathlib.Core.List.{List, [], ◌∷◌}
use Prim.Native.String.{String}

abbrev pub Exec : Type 0 → Type 0 → Type 0
Exec S A = S → Except A × S

module _ {S : Type 0} where
  abbrev pub pure : {A : Type 0} → A → Exec S A
  pure a s = (ok a, s)

  abbrev continue : {A B : Type 0} → (A → Exec S B) → Except A → S → Except B × S
  continue f (ok a) s = f a s
  continue f (err e) s = (err e, s)

  infixl 5 ◌>>=◌ ◌>>◌
  abbrev pub ◌>>=◌ : {A B : Type 0} → Exec S A → (A → Exec S B) → Exec S B
  ◌>>=◌ m f s = continue f (m s).0 (m s).1

  abbrev pub ◌>>◌ : {A B : Type 0} → Exec S A → Exec S B → Exec S B
  m >> n = m >>= λ _. n

  -- `try { m } catch (const std::exception &error) { throw wrap(error.what()); }`
  abbrev pub rethrow : {A : Type 0} → (String → String) → Exec S A → Exec S A
  rethrow wrap m s = (rethrow_value wrap (m s).0, (m s).1)

  abbrev pub for_each : {A : Type 0} → (A → Exec S (Unit {0})) → List A → Exec S (Unit {0})
  for_each f [] = pure tt
  for_each f (x ∷ xs) = f x >> for_each f xs

  pub >>-ok :
      {B : Type 0} (m : Exec S (Unit {0})) (n : Exec S B) (s s' : S) {b : B}
      → (m >> n) s ≡ (ok b, s')
      → (t : S) × (m s ≡ (ok tt, t)) × (n t ≡ (ok b, s'))
  >>-ok {B} m n s s' {b} h = go (m s) refl h
    where
      go :
          (r : Except (Unit {0}) × S)
          → m s ≡ r
          → continue (λ _. n) r.0 r.1 ≡ (ok b, s')
          → (t : S) × (m s ≡ (ok tt, t)) × (n t ≡ (ok b, s'))
      go (ok u, t) e h = (t, e, h)
      go (err x, t) e h = absurd (cc (ap (λ (p : Except B × S). p.0) h))

  pub rethrow-ok :
      {A : Type 0} (wrap : String → String) (m : Exec S A) (s s' : S) {a : A}
      → rethrow wrap m s ≡ (ok a, s')
      → m s ≡ (ok a, s')
  rethrow-ok {A} wrap m s s' {a} h = go (m s) refl h
    where
      go :
          (r : Except A × S)
          → m s ≡ r
          → ◌≡◌ {A = Except A × S} (rethrow_value wrap r.0, r.1) (ok a, s')
          → m s ≡ (ok a, s')
      go (ok b, t) e p = e ∙ p
      go (err x, t) e p = absurd (cc (ap (λ (q : Except A × S). q.0) p))

  pub pure-ok : {A : Type 0} {a b : A} (s s' : S) → pure a s ≡ (ok b, s') → s ≡ s'
  pure-ok {A} s s' h = ap (λ (p : Except A × S). p.1) h

  -- What each round of a loop leaves alone, the loop leaves alone.
  pub for_each-keeps :
      {A V : Type 0} (f : S → V) (body : A → Exec S (Unit {0}))
      → ((x : A) (s s' : S) → body x s ≡ (ok tt, s') → f s' ≡ f s)
      → (xs : List A) (s s' : S) → for_each body xs s ≡ (ok tt, s')
      → f s' ≡ f s
  for_each-keeps f body keeps [] s s' h = ap f (sym (pure-ok s s' h))
  for_each-keeps f body keeps (x ∷ xs) s s' h =
      let (t, e, rest) = >>-ok (body x) (for_each body xs) s s' h in
      for_each-keeps f body keeps xs t s' rest ∙ keeps x s t e

  module _ (I : S → Type 0) where
    abbrev pub Keeps : Exec S (Unit {0}) → Type 0
    Keeps m = (s : S) → I s → I (m s).1

    pub Keeps->> : (m n : Exec S (Unit {0})) → Keeps m → Keeps n → Keeps (m >> n)
    Keeps->> m n km kn s h = go (m s) (km s h)
      where
        go : (r : Except (Unit {0}) × S) → I r.1 → I (continue (λ _. n) r.0 r.1).1
        go (ok u, t) i = kn t i
        go (err e, t) i = i

    -- An invariant of each round, on the entries that satisfy `P`, is one of the loop, also where a
    -- round throws.
    pub for_each-Keeps :
        {A : Type 0} (P : A → Type 0) (body : A → Exec S (Unit {0}))
        → ((x : A) → P x → Keeps (body x))
        → (xs : List A) → All P xs
        → Keeps (for_each body xs)
    for_each-Keeps P body keeps [] p s h = h
    for_each-Keeps P body keeps (x ∷ xs) p s h =
        Keeps->> (body x) (for_each body xs) (keeps x p.0) (for_each-Keeps P body keeps xs p.1) s h

    -- To keep `I` on both results of a call.
    pub Keeps-by :
        (m : Exec S (Unit {0}))
        → ((s s' : S) → m s ≡ (ok tt, s') → I s → I s')
        → ((s s' : S) (e : String) → m s ≡ (err e, s') → I s → I s')
        → Keeps m
    Keeps-by m done thrown s h = go (m s) refl
      where
        go : (r : Except (Unit {0}) × S) → m s ≡ r → I r.1
        go (ok u, t) e = done s t e h
        go (err x, t) e = thrown s t x e h

-- A call returns, or it throws.
pub result-cases :
    {S : Type 0} (r : Except (Unit {0}) × S)
    → ((t : S) × (r ≡ (ok tt, t))) ⊎ ((e : String) × (t : S) × (r ≡ (err e, t)))
result-cases (ok u, t) = inl (t, refl)
result-cases (err e, t) = inr (e, t, refl)
