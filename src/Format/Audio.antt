-- ===== src/Format/Audio.antt =====
-- `get_max_audio_sample_num` of src/daemon/video_format.cpp.
use nmos_client.Base.{
  ℕ, ◌≤◌, ◌≡◌, ◌⊎◌, inl, inr, refl, List, [], ◌∷◌, All, arith, ap, sym, suc, some, leb,
  if◌then◌else◌, get_elem?, Bool-cases,
}
use nmos_client.Format.Desc.{VideoFormatDesc}
use nmos_client.Format.Lookup.{max_element, get_max_audio_sample_num, largest}

max_element-le : (m : ℕ) (xs : List ℕ) → m ≤ max_element m xs
unfolding max_element
max_element-le m [] = omega arith
max_element-le m (x ∷ xs) = ground (arith, max_element-le m xs, max_element-le x xs)

max_element-bounds : (m : ℕ) (xs : List ℕ) → All (λ x. x ≤ max_element m xs) xs
unfolding max_element
max_element-bounds m [] = tt
max_element-bounds m (x ∷ xs) = (
  ground (arith, max_element-le m xs, max_element-le x xs),
  max_element-bounds (if leb x m then m else x) xs,
)

max_element-mem :
    (m : ℕ) (xs : List ℕ)
    → (max_element m xs ≡ m) ⊎ ((i : ℕ) × (get_elem? xs i ≡ some (max_element m xs)))
unfolding max_element
max_element-mem m [] = inl refl
max_element-mem m (x ∷ xs) = elim (Bool-cases (leb x m)) [
  | inl e ↦ rw e (later m (max_element-mem m xs))
  | inr e ↦ rw e (first (max_element-mem x xs))
]
  where
    later :
        (k : ℕ)
        → (max_element k xs ≡ k) ⊎ ((i : ℕ) × (get_elem? xs i ≡ some (max_element k xs)))
        → (max_element k xs ≡ k) ⊎ ((i : ℕ) × (get_elem? (x ∷ xs) i ≡ some (max_element k xs)))
    later k (inl p) = inl p
    later k (inr (i, p)) = inr (suc i, p)

    first :
        (max_element x xs ≡ x) ⊎ ((i : ℕ) × (get_elem? xs i ≡ some (max_element x xs)))
        → (max_element x xs ≡ m) ⊎ ((i : ℕ) × (get_elem? (x ∷ xs) i ≡ some (max_element x xs)))
    first (inl p) = inr (0, ap some (sym p))
    first (inr (i, p)) = inr (suc i, p)

-- `m` is the largest number of a list: no entry is larger, and it is an entry, or 0 for no entries.
abbrev pub IsMaximum : ℕ → List ℕ → Type 0
IsMaximum m xs =
    All (λ x. x ≤ m) xs × (((xs ≡ []) × (m ≡ 0)) ⊎ ((i : ℕ) × (get_elem? xs i ≡ some m)))

largest-IsMaximum : (xs : List ℕ) → IsMaximum (largest xs) xs
largest-IsMaximum [] = (tt, inl (refl, refl))
largest-IsMaximum (x ∷ xs) =
    ((max_element-le x xs, max_element-bounds x xs), inr (place (max_element-mem x xs)))
  where
    place :
        (max_element x xs ≡ x) ⊎ ((i : ℕ) × (get_elem? xs i ≡ some (max_element x xs)))
        → (i : ℕ) × (get_elem? (x ∷ xs) i ≡ some (max_element x xs))
    place (inl p) = (0, ap some (sym p))
    place (inr (i, p)) = (suc i, p)

-- `get_max_audio_sample_num` of any format is the largest entry of its audio cadence: no entry is
-- larger and it is an entry, and it is 0 where the cadence is empty.
pub get_max_audio_sample_num-IsMaximum :
    (d : VideoFormatDesc) → IsMaximum (get_max_audio_sample_num d) d.audio_cadence
unfolding get_max_audio_sample_num
get_max_audio_sample_num-IsMaximum d = largest-IsMaximum d.audio_cadence
