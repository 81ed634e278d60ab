-- ===== src/Node/Gmid.antt =====
-- The identity of a PTP grandmaster, in src/node.cpp, on the bytes of its text. The tests and the
-- conversion of <cctype> are those of the "C" locale.
use nmos_client.Base.{
  ℕ, ◌+◌, Bool, true, not, ◌&&◌, ◌||◌, List, [], ◌∷◌, map, length, eqb, leb, if◌then◌else◌, ◌%◌,
  suc,
}

-- `value >= low && value <= high`
abbrev pub between : ℕ → ℕ → ℕ → Bool
between low high c = leb low c && leb c high

abbrev pub is_digit : ℕ → Bool
is_digit = between 48 57

abbrev pub is_lower_hex : ℕ → Bool
is_lower_hex c = is_digit c || between 97 102 c

abbrev pub is_xdigit : ℕ → Bool
is_xdigit c = is_lower_hex c || between 65 70 c

abbrev pub is_space : ℕ → Bool
is_space c = eqb c 32 || between 9 13 c

abbrev pub to_lower : ℕ → ℕ
to_lower c = if between 65 90 c then c + 32 else c

abbrev pub valid_from : ℕ → List ℕ → Bool
valid_from index [] = true
valid_from index (c ∷ cs) =
    (if eqb (index % 3) 2 then eqb c 45 else is_lower_hex c) && valid_from (suc index) cs

unfoldable pub is_valid_ptp_gmid : List ℕ → Bool
is_valid_ptp_gmid gmid = eqb (length gmid) 23 && valid_from 0 gmid

-- `remove_if`
abbrev pub is_dropped : ℕ → Bool
is_dropped c = eqb c 58 || eqb c 45 || is_space c

abbrev pub kept : List ℕ → List ℕ
kept [] = []
kept (c ∷ cs) = if is_dropped c then kept cs else c ∷ kept cs

abbrev pub all_of : (ℕ → Bool) → List ℕ → Bool
all_of test [] = true
all_of test (c ∷ cs) = test c && all_of test cs

-- The loop over the pairs, after the first one.
abbrev pub more_pairs : List ℕ → List ℕ
more_pairs (a ∷ b ∷ cs) = 45 ∷ a ∷ b ∷ more_pairs cs
more_pairs (a ∷ []) = 45 ∷ a ∷ []
more_pairs [] = []

abbrev pub pairs : List ℕ → List ℕ
pairs (a ∷ b ∷ cs) = a ∷ b ∷ more_pairs cs
pairs cs = cs

abbrev pub normalize_kept : List ℕ → List ℕ
normalize_kept gmid =
    if not (eqb (length gmid) 16)
    then []
    else if not (all_of is_xdigit gmid)
    then []
    else pairs gmid

unfoldable pub normalize_ptp_gmid : List ℕ → List ℕ
normalize_ptp_gmid gmid = normalize_kept (map to_lower (kept gmid))
