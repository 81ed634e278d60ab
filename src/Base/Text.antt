-- ===== src/Base/Text.antt =====
-- Texts: concatenation of several, and `std::to_string` of an unsigned number.
use mathlib.Core.Logic.{inl, inr}
use Prim.Native.Nat.{ℕ, zero, suc, ◌/◌, ◌%◌, ◌<◌}
use Prim.Native.String.{String, ◌++◌}
use mathlib.Core.List.{List, [], ◌∷◌}
use mathlib.Core.Path.{◌≡◌, ap}
use native.Mathlib.Omega.{arith}
use nmos_client.Base.Tests.{ltb, if◌then◌else◌, Bool-cases}
use nmos_client.Base.Lists.{get_or}

abbrev pub concat : List String → String
concat [] = ""
concat (s ∷ ss) = s ++ concat ss

abbrev pub digit : ℕ → String
digit n = get_or "" ("0" ∷ "1" ∷ "2" ∷ "3" ∷ "4" ∷ "5" ∷ "6" ∷ "7" ∷ "8" ∷ "9" ∷ []) n

-- Each round takes off the last digit, so a fuel above the number is enough.
unfoldable pub decimal : ℕ → ℕ → String
decimal zero n = ""
decimal (suc f) n =
    let front = decimal f (n / 10) in if ltb n 10 then digit n else front ++ digit (n % 10)

unfoldable pub to_string : ℕ → String
unfolding decimal
to_string n = decimal (suc n) n

-- Any fuel above the number gives the same text.
pub decimal-fuel : (f g n : ℕ) → n < f → n < g → decimal f n ≡ decimal g n
unfolding decimal
decimal-fuel zero g n h k = absurd (omega arith)
decimal-fuel (suc f) zero n h k = absurd (omega arith)
decimal-fuel (suc f) (suc g) n h k = elim (Bool-cases (ltb n 10)) [
  | inl e ↦ rw e
  | inr e ↦
      rw e (ap (λ t. t ++ digit (n % 10)) (decimal-fuel f g (n / 10) (ground arith) (ground arith)))
]
