-- ===== src/Node/GmidKept.antt =====
-- A valid identity of a PTP grandmaster is in normal form already, src/node.cpp.
use nmos_client.Base.{
  ℕ, suc, zero, ◌*◌, true, ◌&&◌, List, [], ◌∷◌, map, length, eqb, ◌≡◌, refl, sym, ap, ◌∙◌, arith,
  eqb_iff,
}
use nmos_client.Node.Gmid.{
  is_lower_hex, is_xdigit, to_lower, valid_from, is_valid_ptp_gmid, kept, all_of, more_pairs,
  normalize_ptp_gmid,
}
use nmos_client.Node.GmidLaws.{lower-kept, lower-xdigit, valid_from-period, and-parts}

abbrev digits : List ℕ → List ℕ
digits cs = map to_lower (kept cs)

keep : (c : ℕ) (cs : List ℕ) → is_lower_hex c ≡ true → digits (c ∷ cs) ≡ c ∷ digits cs
keep c cs h = let (d, l) = lower-kept c h in rw (d, l) refl

drop_dash : (c : ℕ) (cs : List ℕ) → c ≡ 45 → digits (c ∷ cs) ≡ digits cs
drop_dash c cs h = rw h refl

IsDigits : ℕ → List ℕ → List ℕ → Type 0
IsDigits n cs ds = (more_pairs ds ≡ cs) × (length ds ≡ 2 * n) × (all_of is_xdigit ds ≡ true)

more-digits :
    (n : ℕ) (cs : List ℕ) → length cs ≡ 3 * n → valid_from 2 cs ≡ true → IsDigits n cs (digits cs)
unfolding IsDigits
more-digits n [] l v = (refl, omega arith, refl)
more-digits zero (d ∷ cs) l v = absurd (omega arith)
more-digits (suc n) (d ∷ []) l v = absurd (omega arith)
more-digits (suc n) (d ∷ a ∷ []) l v = absurd (omega arith)
more-digits (suc n) (d ∷ a ∷ b ∷ cs) l v =
    let (dash, v₁) =
      and-parts (eqb d 45) (is_lower_hex a && (is_lower_hex b && valid_from 5 cs)) v in
    let (p, v₂) = and-parts (is_lower_hex a) (is_lower_hex b && valid_from 5 cs) v₁ in
    let (q, v₃) = and-parts (is_lower_hex b) (valid_from 5 cs) v₂ in
    let e = (eqb_iff d 45).0 dash in
    let (m, k, x) = more-digits n cs (omega arith) (sym (valid_from-period 2 cs) ∙ v₃) in
    rw
      (
        drop_dash d (a ∷ b ∷ cs) e,
        keep a (b ∷ cs) p,
        keep b cs q,
        lower-xdigit a p,
        lower-xdigit b q,
      )
      (ap (λ r. 45 ∷ a ∷ b ∷ r) m ∙ ap (λ c. c ∷ a ∷ b ∷ cs) (sym e), omega arith, x)

-- `normalize_ptp_gmid` leaves a text that `is_valid_ptp_gmid` accepts as it is.
pub normalize_ptp_gmid-valid :
    (gmid : List ℕ) → is_valid_ptp_gmid gmid ≡ true → normalize_ptp_gmid gmid ≡ gmid
unfolding normalize_ptp_gmid is_valid_ptp_gmid IsDigits
normalize_ptp_gmid-valid [] v = cc
normalize_ptp_gmid-valid (a ∷ []) v = cc
normalize_ptp_gmid-valid (a ∷ b ∷ cs) v =
    let (l, v₁) = and-parts (eqb (length (a ∷ b ∷ cs)) 23) (valid_from 0 (a ∷ b ∷ cs)) v in
    let (p, v₂) = and-parts (is_lower_hex a) (is_lower_hex b && valid_from 2 cs) v₁ in
    let (q, v₃) = and-parts (is_lower_hex b) (valid_from 2 cs) v₂ in
    let n = (eqb_iff (length (a ∷ b ∷ cs)) 23).0 l in
    let (m, k, x) = more-digits 7 cs (omega arith) v₃ in
    rw (keep a (b ∷ cs) p, keep b cs q, lower-xdigit a p, lower-xdigit b q, k, x)
      (ap (λ r. a ∷ b ∷ r) m)
