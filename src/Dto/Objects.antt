-- ===== src/Dto/Objects.antt =====
-- What the readers of src/daemon/dto.cpp find in an object that its writers built: the last value
-- that was assigned to the name.
use nmos_client.Base.{
  String, Bool, true, false, ◌||◌, List, [], ◌∷◌, ◌++◌, map, ok, ℤ, ◌≡◌, refl, ◌∙◌, ap, ◌==◌,
  string_eq, if◌then◌else◌, suc, ℕ,
}
use nmos_client.Json.{Json}
use nmos_client.Dto.Types.{Redudancy}
use nmos_client.Dto.Fields.{
  absent, get_string_or, get_bool_or, get_int_or, get_double_or, strings_from,
  string_vector_from_json, field_path,
}
use nmos_client.Dto.Print.{
  assign_all, make_object, redudancy_fields, string_vector_to_json, redudancy_to_json,
}

module _ (J : Json) where
  open J use {
    Double, Value, is_object, is_null, has_field, at, object, set, array, string, number,
    number_double, boolean,
  }

  abbrev pub assigned : String → Value → List (String × Value) → Value
  assigned j d [] = d
  assigned j d ((k, v) ∷ fields) = assigned j (if k == j then v else d) fields

  abbrev pub mentions : String → Bool → List (String × Value) → Bool
  mentions j b [] = b
  mentions j b ((k, v) ∷ fields) = mentions j ((k == j) || b) fields

  pub assigned-append :
      (j : String) (d : Value) (xs ys : List (String × Value))
      → assigned j d (xs ++ ys) ≡ assigned j (assigned j d xs) ys
  assigned-append j d [] ys = refl
  assigned-append j d ((k, v) ∷ xs) ys = assigned-append j (if k == j then v else d) xs ys

  pub mentions-append :
      (j : String) (b : Bool) (xs ys : List (String × Value))
      → mentions j b (xs ++ ys) ≡ mentions j (mentions j b xs) ys
  mentions-append j b [] ys = refl
  mentions-append j b ((k, v) ∷ xs) ys = mentions-append j ((k == j) || b) xs ys

  is_object-assign_all :
      (o : Value) (fs : List (String × Value))
      → is_object o ≡ true
      → is_object (assign_all J o fs) ≡ true
  unfolding assign_all
  is_object-assign_all o [] h = h
  is_object-assign_all o ((k, v) ∷ fs) h =
      is_object-assign_all (set o k v) fs (J.is_object-set o k v h)

  at-assign_all :
      (o : Value) (j : String) (fs : List (String × Value))
      → is_object o ≡ true
      → at (assign_all J o fs) j ≡ assigned j (at o j) fs
  unfolding assign_all
  at-assign_all o j [] h = refl
  at-assign_all o j ((k, v) ∷ fs) h =
      at-assign_all (set o k v) j fs (J.is_object-set o k v h)
      ∙ ap (λ d. assigned j d fs) (J.at-set o k j v h)

  has_field-assign_all :
      (o : Value) (j : String) (fs : List (String × Value))
      → is_object o ≡ true
      → has_field (assign_all J o fs) j ≡ mentions j (has_field o j) fs
  unfolding assign_all
  has_field-assign_all o j [] h = refl
  has_field-assign_all o j ((k, v) ∷ fs) h =
      has_field-assign_all (set o k v) j fs (J.is_object-set o k v h)
      ∙ ap (λ b. mentions j b fs) (J.has_field-set o k j v h)

  pub is_object-make_object : (fs : List (String × Value)) → is_object (make_object J fs) ≡ true
  unfolding make_object
  is_object-make_object fs = is_object-assign_all object fs J.is_object-object

  pub at-make_object :
      (j : String) (fs : List (String × Value))
      → at (make_object J fs) j ≡ assigned j (at object j) fs
  unfolding make_object
  at-make_object j fs = at-assign_all object j fs J.is_object-object

  pub has_field-make_object :
      (j : String) (fs : List (String × Value))
      → has_field (make_object J fs) j ≡ mentions j false fs
  unfolding make_object
  has_field-make_object j fs =
      has_field-assign_all object j fs J.is_object-object
      ∙ ap (λ b. mentions j b fs) (J.has_field-object j)

  -- No field of the list has that name.
  abbrev pub Skips : String → List (String × Value) → Type 0
  Skips j fs = ((d : Value) → assigned j d fs ≡ d) × ((b : Bool) → mentions j b fs ≡ b)

  pub redudancy_fields-Skips :
      (r : Redudancy) (j : String) → ("redudancy" == j) ≡ false → Skips j (redudancy_fields J r)
  redudancy_fields-Skips r j h = go r.present
    where
      go : (b : Bool) → Skips j (if b then ("redudancy", redudancy_to_json J r) ∷ [] else [])
      go true = (λ d. rw h, λ b. rw h)
      go false = (λ d. refl, λ b. refl)

  pub append-Skips :
      (j : String) (xs ys : List (String × Value)) → Skips j xs → Skips j ys → Skips j (xs ++ ys)
  append-Skips j xs ys p q = (
    λ d. assigned-append j d xs ys ∙ ap (λ e. assigned j e ys) (p.0 d) ∙ q.0 d,
    λ b. mentions-append j b xs ys ∙ ap (λ c. mentions j c ys) (p.1 b) ∙ q.1 b,
  )

  strings_from-map :
      (path : String) (i : ℕ) (ss : List String) → strings_from J path i (map string ss) ≡ ok ss
  unfolding strings_from
  strings_from-map path i [] = refl
  strings_from-map path i (s ∷ ss) =
      rw (J.is_null-string s, J.as_string-string s, strings_from-map path (suc i) ss)

  -- An object of the fields `pre`, then `opt`, then `post`, read at a name that is not in `opt`.
  module _ (pre opt post : List (String × Value)) where
    abbrev pub whole : Value
    whole = make_object J (pre ++ (opt ++ post))

    abbrev pub AtName : String → Value → Type 0
    AtName j v =
        (mentions j (mentions j false pre) post ≡ true)
        × (assigned j (assigned j (at object j) pre) post ≡ v)

    pub at-whole : (j : String) {v : Value} → Skips j opt → AtName j v → at whole j ≡ v
    at-whole j s h =
        at-make_object j (pre ++ (opt ++ post))
        ∙ assigned-append j (at object j) pre (opt ++ post)
        ∙ assigned-append j (assigned j (at object j) pre) opt post
        ∙ ap (λ d. assigned j d post) (s.0 (assigned j (at object j) pre))
        ∙ h.1

    pub has_field-whole :
        (j : String) {v : Value} → Skips j opt → AtName j v → has_field whole j ≡ true
    has_field-whole j s h =
        has_field-make_object j (pre ++ (opt ++ post))
        ∙ mentions-append j false pre (opt ++ post)
        ∙ mentions-append j (mentions j false pre) opt post
        ∙ ap (λ b. mentions j b post) (s.1 (mentions j false pre))
        ∙ h.0

    absent-whole :
        (j : String) {v : Value}
        → Skips j opt
        → AtName j v
        → is_null v ≡ false
        → absent J whole j ≡ false
    unfolding absent
    absent-whole j s h n =
        rw (is_object-make_object (pre ++ (opt ++ post)), has_field-whole j s h, at-whole j s h) n

    pub string_field :
        (j s fallback path : String)
        → Skips j opt
        → AtName j (string s)
        → get_string_or J whole j fallback path ≡ ok s
    unfolding get_string_or
    string_field j s fallback path k h =
        rw (absent-whole j k h (J.is_null-string s), at-whole j k h, J.as_string-string s)

    pub int_field :
        (j : String) (n fallback : ℤ) (path : String)
        → Skips j opt
        → AtName j (number n)
        → get_int_or J whole j fallback path ≡ ok n
    unfolding get_int_or
    int_field j n fallback path k h =
        rw (absent-whole j k h (J.is_null-number n), at-whole j k h, J.as_integer-number n)

    pub double_field :
        (j : String) (d fallback : Double) (path : String)
        → Skips j opt
        → AtName j (number_double d)
        → get_double_or J whole j fallback path ≡ ok d
    unfolding get_double_or
    double_field j d fallback path k h = rw (
      absent-whole j k h (J.is_null-number_double d),
      at-whole j k h,
      J.as_double-number_double d,
    )

    pub bool_field :
        (j : String) (b fallback : Bool) (path : String)
        → Skips j opt
        → AtName j (boolean b)
        → get_bool_or J whole j fallback path ≡ ok b
    unfolding get_bool_or
    bool_field j b fallback path k h = rw (
      absent-whole j k h (J.is_null-boolean b),
      at-whole j k h,
      J.is_boolean-boolean b,
      J.as_bool-boolean b,
    )

    pub strings_field :
        (j : String) (ss : List String) (path : String)
        → Skips j opt
        → AtName j (string_vector_to_json J ss)
        → string_vector_from_json J whole j path ≡ ok ss
    unfolding string_vector_from_json
    strings_field j ss path k h =
        rw
          (
            absent-whole j k h (J.is_null-array (map string ss)),
            at-whole j k h,
            J.is_array-array (map string ss),
            J.as_array-array (map string ss),
          )
          (strings_from-map (field_path path j) 0 ss)
