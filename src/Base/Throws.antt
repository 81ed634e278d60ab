-- ===== src/Base/Throws.antt =====
-- Code that may throw a `std::exception`: a value, or the text of `what()`.
use Prim.Native.String.{String}
use mathlib.Core.Path.{◌≡◌, refl}

pub data Except {ℓ} (A : Type ℓ) : Type ℓ where
  ok : A → Except A
  err : String → Except A

module _ {ℓ κ} {A : Type ℓ} {B : Type κ} where
  infixl 5 ◌>>◌ ◌>>=◌
  -- A throw skips the rest.
  abbrev pub ◌>>=◌ : Except A → (A → Except B) → Except B
  (err what) >>= next = err what
  (ok value) >>= next = next value

  abbrev pub ◌>>◌ : Except A → Except B → Except B
  first >> second = first >>= (λ value. second)

  pub >>=-eq-ok :
      (first : Except A) (next : A → Except B) {result : B}
      → (first >>= next) ≡ ok result
      → (value : A) × (first ≡ ok value) × (next value ≡ ok result)
  >>=-eq-ok (err what) next returns = cc
  >>=-eq-ok (ok value) next returns = (value, refl, returns)

-- `try { m } catch (const std::exception &error) { throw wrap(error.what()); }`
abbrev pub rethrow {ℓ} : {A : Type ℓ} → (String → String) → Except A → Except A
rethrow wrap (ok a) = ok a
rethrow wrap (err e) = err (wrap e)

pub >>=-ok {ℓ} : {A : Type ℓ} (m : Except A) → (m >>= λ a. ok a) ≡ m
>>=-ok (ok a) = refl
>>=-ok (err e) = refl
