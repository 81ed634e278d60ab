-- ===== src/Base/Equality.antt =====
-- `==` of the source, one operator for each type that has an instance.
use mathlib.Core.List.{List, [], ◌∷◌}
use Prim.Native.Nat.{ℕ}
use Prim.Native.String.{String}
use mathlib.Core.Path.{◌≡◌, refl}
use mathlib.Core.Logic.{◌↔◌, ◌≢◌, inl, inr}
use mathlib.Core.Bool.{Bool, true, false, ◌&&◌}
use native.Mathlib.Omega.{arith}
use text.Mathlib.Text.{◌==◌ as str_eq}
use text.Mathlib.TextEquality.{eq_iff}
use nmos_client.Base.Tests.{eqb, Bool-cases}

-- A test of a type that decides its equality.
pub record Eq {ℓ} (A : Type ℓ) : Type ℓ where
  pub same : A → A → Bool
  pub same_iff : (x y : A) → (same x y ≡ true) ↔ (x ≡ y)

module _ {ℓ} {A : Type ℓ} ⦃equality : Eq A⦄ where
  infix 50 ◌==◌
  abbrev pub ◌==◌ : A → A → Bool
  x == y = equality.same x y

  pub ==-refl : (x : A) → (x == x) ≡ true
  ==-refl x = (equality.same_iff x x).1 refl

pub eqb_iff : (a b : ℕ) → (eqb a b ≡ true) ↔ (a ≡ b)
eqb_iff a b = (λ h. ground arith, λ h. ground arith)

abbrev pub same_bool : Bool → Bool → Bool
same_bool true true = true
same_bool false false = true
same_bool _ _ = false

pub same_bool_iff : (a b : Bool) → (same_bool a b ≡ true) ↔ (a ≡ b)
same_bool_iff a b = (λ h. ground arith, λ h. ground arith)

pub string_iff : (a b : String) → ((str_eq a b) ≡ true) ↔ (a ≡ b)
string_iff = eq_iff

instance abbrev pub bool_eq : Eq Bool
bool_eq = record { same = same_bool; same_iff = same_bool_iff }

instance abbrev pub string_eq : Eq String
string_eq = record { same_iff = string_iff; same = str_eq }

instance abbrev pub nat_eq : Eq ℕ
nat_eq = record { same_iff = eqb_iff; same = eqb }

-- `operator==` of `std::vector`
abbrev pub same_list {ℓ} : {A : Type ℓ} ⦃e : Eq A⦄ → List A → List A → Bool
same_list [] [] = true
same_list (x ∷ xs) (y ∷ ys) = x == y && same_list xs ys
same_list _ _ = false

pub same_list_iff {ℓ} :
    {A : Type ℓ} ⦃e : Eq A⦄ (xs ys : List A) → (same_list xs ys ≡ true) ↔ (xs ≡ ys)
same_list_iff [] [] = (λ h. refl, λ h. refl)
same_list_iff [] (y ∷ ys) = (λ h. cc, λ h. cc)
same_list_iff (x ∷ xs) [] = (λ h. cc, λ h. cc)
same_list_iff ⦃e⦄ (x ∷ xs) (y ∷ ys) = (
  λ h. ground (arith, e.same_iff x y, same_list_iff xs ys),
  λ h. ground (arith, e.same_iff x y, same_list_iff xs ys),
)

instance abbrev pub list_eq {ℓ} : {A : Type ℓ} ⦃e : Eq A⦄ → Eq (List A)
list_eq = record { same = same_list; same_iff = same_list_iff }

pub not-== : (a b : String) → a ≢ b → str_eq a b ≡ false
not-== a b h = elim (Bool-cases (str_eq a b)) [
  | inl e ↦ absurd (h ((string_iff a b).0 e))
  | inr e ↦ e
]
