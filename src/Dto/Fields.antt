-- ===== src/Dto/Fields.antt =====
-- The readers of one JSON field in src/daemon/dto.cpp, and the texts of their errors.
use nmos_client.Base.{
  ℕ, suc, String, Bool, not, ◌||◌, ℤ, pos, List, [], ◌∷◌, Except, ok, err, ◌>>=◌, ◌>>◌, rethrow,
  concat, to_string, ◌==◌, string_eq, int_eq, if◌then◌else◌,
}
use nmos_client.Json.{Json}

unfoldable pub field_path : String → String → String
field_path base name = if base == "" then name else concat (base ∷ "." ∷ name ∷ [])

unfoldable pub index_path : String → ℕ → String
index_path base index = concat (base ∷ "[" ∷ to_string index ∷ "]" ∷ [])

unfoldable pub invalid_field_error : String → String → String → String
invalid_field_error path expected detail =
    concat ("invalid JSON field '" ∷ path ∷ "': expected " ∷ expected ∷ ": " ∷ detail ∷ [])

module _ (J : Json) where
  open J use {
    Double, double_zero, Value, is_object, is_array, is_null, is_boolean, is_integer, has_field, at,
    as_string, as_bool, as_integer, as_int64, as_double, as_array,
  }

  unfoldable pub require_field : Value → String → Except (Unit {0})
  require_field o name =
      if not (is_object o) || not (has_field o name)
      then err (concat ("missing required field: " ∷ name ∷ []))
      else ok tt

  unfoldable pub require_object_value : Value → String → Except Value
  unfolding invalid_field_error
  require_object_value o path =
      if not (is_object o) then err (invalid_field_error path "object" "not an object") else ok o

  unfoldable pub require_array_field : Value → String → String → Except Value
  unfolding require_field invalid_field_error field_path
  require_array_field o name path_base = do
    require_field o name
    if not (is_array (at o name))
        then err (invalid_field_error (field_path path_base name) "array" "not an array")
        else ok (at o name)

  -- The test that sends each reader to its fallback.
  unfoldable pub absent : Value → String → Bool
  absent o name = not (is_object o) || (not (has_field o name) || is_null (at o name))

  unfoldable pub get_string_or : Value → String → String → String → Except String
  get_string_or o name fallback path_base =
      if absent o name
      then ok fallback
      else rethrow (invalid_field_error (field_path path_base name) "string")
          (as_string (at o name))

  unfoldable pub bool_of : Value → Except Bool
  bool_of raw =
      if is_boolean raw
      then as_bool raw
      else if is_integer raw
      then (do i ← as_integer raw; ok (not (pos 0 == i)))
      else as_bool raw

  unfoldable pub get_bool_or : Value → String → Bool → String → Except Bool
  unfolding bool_of
  get_bool_or o name fallback path_base =
      if absent o name
      then ok fallback
      else rethrow (invalid_field_error (field_path path_base name) "boolean") (bool_of (at o name))

  unfoldable pub get_int_or : Value → String → ℤ → String → Except ℤ
  get_int_or o name fallback path_base =
      if absent o name
      then ok fallback
      else rethrow (invalid_field_error (field_path path_base name) "integer")
          (as_integer (at o name))

  unfoldable pub get_int64_or : Value → String → ℤ → String → Except ℤ
  get_int64_or o name fallback path_base =
      if absent o name
      then ok fallback
      else rethrow (invalid_field_error (field_path path_base name) "integer")
          (as_int64 (at o name))

  unfoldable pub get_double_or : Value → String → Double → String → Except Double
  get_double_or o name fallback path_base =
      if absent o name
      then ok fallback
      else rethrow (invalid_field_error (field_path path_base name) "number")
          (as_double (at o name))

  -- The loop of `string_vector_from_json`: nulls are passed over, and still counted.
  unfoldable pub strings_from : String → ℕ → List Value → Except (List String)
  strings_from path index [] = ok []
  strings_from path index (item ∷ items) =
      let rest = strings_from path (suc index) items in
      if is_null item then rest else do
        s ← rethrow (invalid_field_error (index_path path index) "string") (as_string item)
        ss ← rest
        ok (s ∷ ss)

  unfoldable pub string_vector_from_json : Value → String → String → Except (List String)
  unfolding strings_from
  string_vector_from_json o name path_base =
      if absent o name
      then ok []
      else if not (is_array (at o name))
      then err (invalid_field_error (field_path path_base name) "array" "not an array")
      else strings_from (field_path path_base name) 0 (as_array (at o name))
