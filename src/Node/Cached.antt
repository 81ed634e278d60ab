-- ===== src/Node/Cached.antt =====
-- The lists of cached streams of src/node.cpp, after what its methods do to them.
use nmos_client.Base.{
  String, true, List, [], ◌∷◌, ◌++◌, none, some, ◌≡◌, ◌≢◌, refl, ◌==◌, string_eq, string_iff,
  if◌then◌else◌, or_else, is_some, All, arith, Bool-cases, inl, inr,
}
use nmos_client.Reconcile.Kind.{
  Kind, StreamOf, video_receiver, audio_receiver, ancillary_receiver, video_sender, audio_sender,
  ancillary_sender,
}
use nmos_client.Node.State.{Cache, find_by_id, replace_cached_by_id, remove_by, cached, set_cached}

module _ {D : Type 0} where
  pub cached-set_cached :
      (k : Kind) (xs : List (StreamOf D k)) (c : Cache D) → cached k (set_cached k xs c) ≡ xs
  cached-set_cached video_receiver xs c = refl
  cached-set_cached audio_receiver xs c = refl
  cached-set_cached ancillary_receiver xs c = refl
  cached-set_cached video_sender xs c = refl
  cached-set_cached audio_sender xs c = refl
  cached-set_cached ancillary_sender xs c = refl

  pub seed-set_cached :
      (k : Kind) (xs : List (StreamOf D k)) (c : Cache D) → (set_cached k xs c).seed_id ≡ c.seed_id
  seed-set_cached video_receiver xs c = refl
  seed-set_cached audio_receiver xs c = refl
  seed-set_cached ancillary_receiver xs c = refl
  seed-set_cached video_sender xs c = refl
  seed-set_cached audio_sender xs c = refl
  seed-set_cached ancillary_sender xs c = refl

  pub cached-set_cached_other :
      (k l : Kind) (xs : List (StreamOf D k)) (c : Cache D)
      → k ≢ l
      → cached l (set_cached k xs c) ≡ cached l c
  cached-set_cached_other video_receiver video_receiver xs c d = absurd (d refl)
  cached-set_cached_other video_receiver audio_receiver xs c d = refl
  cached-set_cached_other video_receiver ancillary_receiver xs c d = refl
  cached-set_cached_other video_receiver video_sender xs c d = refl
  cached-set_cached_other video_receiver audio_sender xs c d = refl
  cached-set_cached_other video_receiver ancillary_sender xs c d = refl
  cached-set_cached_other audio_receiver video_receiver xs c d = refl
  cached-set_cached_other audio_receiver audio_receiver xs c d = absurd (d refl)
  cached-set_cached_other audio_receiver ancillary_receiver xs c d = refl
  cached-set_cached_other audio_receiver video_sender xs c d = refl
  cached-set_cached_other audio_receiver audio_sender xs c d = refl
  cached-set_cached_other audio_receiver ancillary_sender xs c d = refl
  cached-set_cached_other ancillary_receiver video_receiver xs c d = refl
  cached-set_cached_other ancillary_receiver audio_receiver xs c d = refl
  cached-set_cached_other ancillary_receiver ancillary_receiver xs c d = absurd (d refl)
  cached-set_cached_other ancillary_receiver video_sender xs c d = refl
  cached-set_cached_other ancillary_receiver audio_sender xs c d = refl
  cached-set_cached_other ancillary_receiver ancillary_sender xs c d = refl
  cached-set_cached_other video_sender video_receiver xs c d = refl
  cached-set_cached_other video_sender audio_receiver xs c d = refl
  cached-set_cached_other video_sender ancillary_receiver xs c d = refl
  cached-set_cached_other video_sender video_sender xs c d = absurd (d refl)
  cached-set_cached_other video_sender audio_sender xs c d = refl
  cached-set_cached_other video_sender ancillary_sender xs c d = refl
  cached-set_cached_other audio_sender video_receiver xs c d = refl
  cached-set_cached_other audio_sender audio_receiver xs c d = refl
  cached-set_cached_other audio_sender ancillary_receiver xs c d = refl
  cached-set_cached_other audio_sender video_sender xs c d = refl
  cached-set_cached_other audio_sender audio_sender xs c d = absurd (d refl)
  cached-set_cached_other audio_sender ancillary_sender xs c d = refl
  cached-set_cached_other ancillary_sender video_receiver xs c d = refl
  cached-set_cached_other ancillary_sender audio_receiver xs c d = refl
  cached-set_cached_other ancillary_sender ancillary_receiver xs c d = refl
  cached-set_cached_other ancillary_sender video_sender xs c d = refl
  cached-set_cached_other ancillary_sender audio_sender xs c d = refl
  cached-set_cached_other ancillary_sender ancillary_sender xs c d = absurd (d refl)

module _ {T : Type 0} (id : T → String) where
  pub find-push :
      (x : T) (xs : List T) (j : String)
      → find_by_id id j (xs ++ (x ∷ []))
        ≡ or_else (find_by_id id j xs) (if id x == j then some x else none)
  unfolding find_by_id
  find-push x [] j = refl
  find-push x (y ∷ ys) j = ground (arith, find-push x ys j)

  -- Where a stream with the id is there, its place is taken.
  pub find-replace :
      (x : T) (xs : List T) (j : String)
      → is_some (find_by_id id (id x) xs) ≡ true
      → find_by_id id j (replace_cached_by_id id x xs)
        ≡ (if id x == j then some x else find_by_id id j xs)
  unfolding find_by_id replace_cached_by_id
  find-replace x [] j h = cc
  find-replace x (y ∷ ys) j h = ground (
    arith,
    find-replace x ys j,
    string_iff (id y) (id x),
    string_iff (id x) j,
    string_iff (id y) j,
    h,
  )

  pub find-remove :
      (i : String) (xs : List T) (j : String)
      → find_by_id id j (remove_by id i xs) ≡ (if i == j then none else find_by_id id j xs)
  unfolding find_by_id remove_by
  find-remove i [] j = ground arith
  find-remove i (y ∷ ys) j =
      ground (arith, find-remove i ys j, string_iff (id y) i, string_iff i j, string_iff (id y) j)

  -- An erasure by another name of the streams is one by the id, where each is named after its id.
  pub remove_by-named :
      (other : T → String) (name : String → String)
      → ((i j : String) → name i ≡ name j → i ≡ j)
      → (i : String) (xs : List T) → All (λ x. other x ≡ name (id x)) xs
      → remove_by other (name i) xs ≡ remove_by id i xs
  unfolding remove_by
  remove_by-named other name injective i [] h = refl
  remove_by-named other name injective i (y ∷ ys) h = ground (
    arith,
    remove_by-named other name injective i ys h.1,
    h.0,
    string_iff (id y) i,
    string_iff (other y) (name i),
    injective (id y) i,
  )

module _ {T : Type 0} (P : T → Type 0) where
  pub All-push : (x : T) (xs : List T) → P x → All P xs → All P (xs ++ (x ∷ []))
  All-push x [] p h = (p, tt)
  All-push x (y ∷ ys) p h = (h.0, All-push x ys p h.1)

  pub All-replace :
      (id : T → String) (x : T) (xs : List T)
      → P x
      → All P xs
      → All P (replace_cached_by_id id x xs)
  unfolding replace_cached_by_id
  All-replace id x [] p h = tt
  All-replace id x (y ∷ ys) p h = elim (Bool-cases (id y == id x)) [
    | inl e ↦ rw e (p, h.1)
    | inr e ↦ rw e (h.0, All-replace id x ys p h.1)
  ]

  pub All-remove :
      (id : T → String) (i : String) (xs : List T) → All P xs → All P (remove_by id i xs)
  unfolding remove_by
  All-remove id i [] h = tt
  All-remove id i (y ∷ ys) h = elim (Bool-cases (id y == i)) [
    | inl e ↦ rw e (All-remove id i ys h.1)
    | inr e ↦ rw e (h.0, All-remove id i ys h.1)
  ]
