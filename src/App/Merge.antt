-- ===== src/App/Merge.antt =====
-- `merge_objects` of src/daemon/app.cpp, on the JSON tree. A nested object of the patch is merged into
-- the field of the base that is an object; `null` takes a field away.
use nmos_client.Base.{
  String, Option, none, some, Except, ok, err, ◌≡◌, refl, ◌==◌, string_eq, string_iff,
  if◌then◌else◌, arith, Bool-cases, inl, inr, ap, ◌∙◌, subst,
}
use nmos_client.Json.Tree.{Tree, Fields, nil, obj, stop, field, get, put, get-put}

-- `as_object().erase(name)`
unfoldable pub erase : String → Fields → Fields
erase k stop = stop
erase k (field j w fs) = if j == k then erase k fs else field j w (erase k fs)

-- What stands in a field where the patch has an object: `merge` merges the patch into an object.
abbrev pub merged_object : (Fields → Fields) → Fields → Option Tree → Tree
merged_object merge p (some (obj b)) = obj (merge b)
merged_object merge p _ = obj p

-- The loop over the fields of the patch, from what is merged so far.
unfoldable pub merge_fields : Fields → Fields → Fields
unfolding erase
merge_fields merged stop = merged
merge_fields merged (field k nil fs) = merge_fields (erase k merged) fs
merge_fields merged (field k (obj p) fs) =
    merge_fields (put k (merged_object (λ b. merge_fields b p) p (get k merged)) merged) fs
merge_fields merged (field k v fs) = merge_fields (put k v merged) fs

unfoldable pub merge_objects : Tree → Tree → Except Tree
unfolding merge_fields
merge_objects (obj base) (obj patch) = ok (obj (merge_fields base patch))
merge_objects _ _ = err "node config patch must be a JSON object"

-- What a field of the result is, from that of the base and that of the patch.
abbrev pub merged_field : Option Tree → Option Tree → Option Tree
unfolding merge_fields
merged_field b none = b
merged_field b (some nil) = none
merged_field b (some (obj p)) = some (merged_object (λ b. merge_fields b p) p b)
merged_field b (some v) = some v

-- No two fields have one name.
abbrev pub DistinctFields : Fields → Type 0
DistinctFields stop = Unit
DistinctFields (field k v fs) = (get k fs ≡ none) × DistinctFields fs

get-erase : (k j : String) (fs : Fields) → get j (erase k fs) ≡ (if k == j then none else get j fs)
unfolding erase
get-erase k j stop = ground arith
get-erase k j (field i w fs) =
    ground (arith, string_iff k j, string_iff i k, string_iff i j, get-erase k j fs)

-- One round of the loop, from what it leaves under the name `j`.
one_field :
    (k j : String) (v : Tree) (fs base next : Fields)
    → get k fs ≡ none
    → get j next ≡ (if k == j then merged_field (get k base) (some v) else get j base)
    → get j (merge_fields next fs) ≡ merged_field (get j next) (get j fs)
    → get j (merge_fields next fs) ≡ merged_field (get j base) (if k == j then some v else get j fs)
unfolding merge_fields
one_field k j v fs base next absent e h = elim (Bool-cases (k == j)) [
  | inl q ↦
      let p = (string_iff k j).0 q in
      let gone = subst (λ i. get i fs ≡ none) p absent in
      rw q (
        h
        ∙ ap (merged_field (get j next)) gone
        ∙ (e ∙ rw q refl)
        ∙ ap (λ i. merged_field (get i base) (some v)) p)
  | inr q ↦ rw q (h ∙ ap (λ o. merged_field o (get j fs)) (e ∙ rw q refl))
]

get-merge_fields :
    (merged patch : Fields)
    → DistinctFields patch
    → (j : String) → get j (merge_fields merged patch) ≡ merged_field (get j merged) (get j patch)
unfolding merge_fields
get-merge_fields merged stop d j = refl
get-merge_fields merged (field k nil fs) d j =
    one_field k j nil fs merged (erase k merged) d.0 (get-erase k j merged)
      (get-merge_fields (erase k merged) fs d.1 j)
get-merge_fields merged (field k (obj p) fs) d j =
    let v = merged_object (λ b. merge_fields b p) p (get k merged) in
    one_field k j (obj p) fs merged (put k v merged) d.0 (get-put k j v merged)
      (get-merge_fields (put k v merged) fs d.1 j)
get-merge_fields merged (field k v fs) d j =
    one_field k j v fs merged (put k v merged) d.0 (get-put k j v merged)
      (get-merge_fields (put k v merged) fs d.1 j)

-- Where the patch has no name twice, each field of the result of `merge_objects` is determined by the
-- fields of the base and of the patch with its name: without one in the patch it is that of the base;
-- `null` removes it; an object is merged into an object and else put in its place, as is any other value.
pub merge_objects-fields :
    (base patch : Fields)
    → DistinctFields patch
    → (result : Fields) × (merge_objects (obj base) (obj patch) ≡ ok (obj result))
      × ((j : String) → get j result ≡ merged_field (get j base) (get j patch))
unfolding merge_objects
merge_objects-fields base patch d = (merge_fields base patch, refl, get-merge_fields base patch d)
