-- ===== src/Node/GmidLaws.antt =====
-- The normal form of the identity of a PTP grandmaster, src/node.cpp.
use nmos_client.Base.{
  ℕ, suc, zero, ◌*◌, ◌%◌, Bool, true, false, ◌&&◌, List, [], ◌∷◌, map, length, eqb, if◌then◌else◌,
  ◌≡◌, refl, ap, ◌⊎◌, inl, inr, arith, Bool-cases, eqb_iff,
}
use nmos_client.Node.Gmid.{
  is_lower_hex, is_xdigit, to_lower, valid_from, is_valid_ptp_gmid, is_dropped, kept, all_of,
  more_pairs, pairs, normalize_kept, normalize_ptp_gmid,
}

-- A lower-case hexadecimal digit is kept as it is.
pub lower-kept : (c : ℕ) → is_lower_hex c ≡ true → (is_dropped c ≡ false) × (to_lower c ≡ c)
lower-kept c h = ground arith

pub lower-xdigit : (c : ℕ) → is_lower_hex c ≡ true → is_xdigit c ≡ true
lower-xdigit c h = ground arith

lowered : (c : ℕ) → is_xdigit (to_lower c) ≡ true → is_lower_hex (to_lower c) ≡ true
lowered c h = ground arith

all_lowered :
    (cs : List ℕ)
    → all_of is_xdigit (map to_lower cs) ≡ true
    → all_of is_lower_hex (map to_lower cs) ≡ true
all_lowered [] h = refl
all_lowered (c ∷ cs) h = ground (arith, all_lowered cs, lowered c)

-- The position counts modulo three only.
pub valid_from-period : (i : ℕ) (cs : List ℕ) → valid_from (suc (suc (suc i))) cs ≡ valid_from i cs
valid_from-period i [] = refl
valid_from-period i (c ∷ cs) = rw (period i) (
    ap (λ b. (if eqb (i % 3) 2 then eqb c 45 else is_lower_hex c) && b)
      (valid_from-period (suc i) cs))
  where
    period : (i : ℕ) → suc (suc (suc i)) % 3 ≡ i % 3
    period i = omega arith

pub and-parts : (a b : Bool) → (a && b) ≡ true → (a ≡ true) × (b ≡ true)
and-parts true b h = (refl, h)
and-parts false b h = cc

-- What follows the first pair of a text made of pairs of lower-case digits.
more_pairs-valid :
    (n : ℕ) (cs : List ℕ)
    → length cs ≡ 2 * n
    → all_of is_lower_hex cs ≡ true
    → (valid_from 2 (more_pairs cs) ≡ true) × (length (more_pairs cs) ≡ 3 * n)
more_pairs-valid n [] l h = (refl, omega arith)
more_pairs-valid zero (a ∷ cs) l h = absurd (omega arith)
more_pairs-valid (suc n) (a ∷ []) l h = absurd (omega arith)
more_pairs-valid (suc n) (a ∷ b ∷ cs) l h =
    let (p, q) = and-parts (is_lower_hex a) (is_lower_hex b && all_of is_lower_hex cs) h in
    let (p', q') = and-parts (is_lower_hex b) (all_of is_lower_hex cs) q in
    let (v, k) = more_pairs-valid n cs (omega arith) q' in
    (rw (p, p', valid_from-period 2 (more_pairs cs)) v, omega arith)

pairs-valid :
    (cs : List ℕ)
    → length cs ≡ 16
    → all_of is_lower_hex cs ≡ true
    → is_valid_ptp_gmid (pairs cs) ≡ true
unfolding is_valid_ptp_gmid
pairs-valid [] l h = absurd (omega arith)
pairs-valid (a ∷ []) l h = absurd (omega arith)
pairs-valid (a ∷ b ∷ cs) l h =
    let (p, q) = and-parts (is_lower_hex a) (is_lower_hex b && all_of is_lower_hex cs) h in
    let (p', q') = and-parts (is_lower_hex b) (all_of is_lower_hex cs) q in
    let (v, k) = more_pairs-valid 7 cs (omega arith) q' in rw (p, p', v, k) refl

-- Of any bytes, `normalize_ptp_gmid` makes the empty text or one that `is_valid_ptp_gmid` accepts.
pub normalize_ptp_gmid-IsValid :
    (gmid : List ℕ)
    → (normalize_ptp_gmid gmid ≡ []) ⊎ (is_valid_ptp_gmid (normalize_ptp_gmid gmid) ≡ true)
unfolding normalize_ptp_gmid is_valid_ptp_gmid
normalize_ptp_gmid-IsValid gmid = go (map to_lower (kept gmid)) (all_lowered (kept gmid))
  where
    go :
        (cs : List ℕ)
        → (all_of is_xdigit cs ≡ true → all_of is_lower_hex cs ≡ true)
        → (normalize_kept cs ≡ []) ⊎ (is_valid_ptp_gmid (normalize_kept cs) ≡ true)
    go cs lower = elim (Bool-cases (eqb (length cs) 16)) [
      | inr e ↦ inl (rw e refl)
      | inl e ↦ elim (Bool-cases (all_of is_xdigit cs)) [
        | inr f ↦ inl (rw (e, f) refl)
        | inl f ↦ inr (rw (e, f) (pairs-valid cs ((eqb_iff (length cs) 16).0 e) (lower f)))
      ]
    ]
