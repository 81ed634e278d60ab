-- ===== src/Json.antt =====
-- `web::json::value` of cpprestsdk, as far as src/daemon uses it, and the `double` it reads. The
-- library is not part of the repository: it is a parameter, and the laws are its documented
-- behaviour on the values that the source builds. `at` is used behind `has_field` only; what it
-- throws otherwise is not part of the interface. `array` is a `value::array()` whose elements were
-- assigned in order.
pub mod Tree
use nmos_client.Base.{
  String, Bool, true, false, ◌||◌, List, Except, ok, ◌≡◌, ◌==◌, string_eq, if◌then◌else◌, ℤ,
}

pub record Json : Type 1 where
  pub Double : Type 0
  pub double_zero : Double
  pub double_eq : Double → Double → Bool
  pub Value : Type 0
  pub is_object : Value → Bool
  pub is_array : Value → Bool
  pub is_null : Value → Bool
  pub is_boolean : Value → Bool
  pub is_integer : Value → Bool
  pub is_string : Value → Bool
  pub has_field : Value → String → Bool
  pub at : Value → String → Value
  pub as_string : Value → Except String
  pub as_bool : Value → Except Bool
  pub as_integer : Value → Except ℤ
  pub as_int64 : Value → Except ℤ
  pub as_double : Value → Except Double
  pub as_array : Value → List Value
  pub null : Value
  pub object : Value
  pub set : Value → String → Value → Value
  pub array : List Value → Value
  pub string : String → Value
  pub number : ℤ → Value
  pub number_double : Double → Value
  pub boolean : Bool → Value
  pub is_object-object : is_object object ≡ true
  pub is_object-set :
      (o : Value) (k : String) (v : Value) → is_object o ≡ true → is_object (set o k v) ≡ true
  pub has_field-object : (k : String) → has_field object k ≡ false
  pub has_field-set :
      (o : Value) (k j : String) (v : Value)
      → is_object o ≡ true
      → has_field (set o k v) j ≡ ((k == j) || has_field o j)
  pub at-set :
      (o : Value) (k j : String) (v : Value)
      → is_object o ≡ true
      → at (set o k v) j ≡ (if k == j then v else at o j)
  pub is_null-object : (o : Value) → is_object o ≡ true → is_null o ≡ false
  pub is_array-object : (o : Value) → is_object o ≡ true → is_array o ≡ false
  pub is_null-string : (s : String) → is_null (string s) ≡ false
  pub is_null-number : (n : ℤ) → is_null (number n) ≡ false
  pub is_null-number_double : (d : Double) → is_null (number_double d) ≡ false
  pub is_null-boolean : (b : Bool) → is_null (boolean b) ≡ false
  pub is_null-array : (vs : List Value) → is_null (array vs) ≡ false
  pub as_string-string : (s : String) → as_string (string s) ≡ ok s
  pub is_boolean-boolean : (b : Bool) → is_boolean (boolean b) ≡ true
  pub as_bool-boolean : (b : Bool) → as_bool (boolean b) ≡ ok b
  pub as_integer-number : (n : ℤ) → as_integer (number n) ≡ ok n
  pub as_int64-number : (n : ℤ) → as_int64 (number n) ≡ ok n
  pub as_double-number_double : (d : Double) → as_double (number_double d) ≡ ok d
  pub is_array-array : (vs : List Value) → is_array (array vs) ≡ true
  pub as_array-array : (vs : List Value) → as_array (array vs) ≡ vs
