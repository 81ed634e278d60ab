-- ===== src/Json/Tree.antt =====
-- A JSON value as a tree: the parameter `Json` can be met. Doubles are integers here, and `what()` of
-- a cpprest exception is one text. The tests run on this value.
use nmos_client.Base.{
  String, Bool, true, false, ◌||◌, List, [], ◌∷◌, Option, none, some, is_some, Except, ok, err, ◌≡◌,
  refl, ◌==◌, string_eq, int_eq, string_iff, if◌then◌else◌, ℤ, pos, arith, eqb_ℤ, ap,
}
use nmos_client.Json.{Json}

mutual
  pub data Tree : Type 0 where
    nil : Tree
    str : String → Tree
    int : ℤ → Tree
    dbl : ℤ → Tree
    bool : Bool → Tree
    arr : Items → Tree
    obj : Fields → Tree

  pub data Items : Type 0 where
    end : Items
    item : Tree → Items → Items

  pub data Fields : Type 0 where
    stop : Fields
    field : String → Tree → Fields → Fields

abbrev to_items : List Tree → Items
to_items [] = end
to_items (v ∷ vs) = item v (to_items vs)

abbrev of_items : Items → List Tree
of_items end = []
of_items (item v vs) = v ∷ of_items vs

pub of_items-to_items : (vs : List Tree) → of_items (to_items vs) ≡ vs
of_items-to_items [] = refl
of_items-to_items (v ∷ vs) = ap (◌∷◌ v) (of_items-to_items vs)

abbrev pub get : String → Fields → Option Tree
get j stop = none
get j (field k v fs) = if k == j then some v else get j fs

abbrev pub put : String → Tree → Fields → Fields
put k v stop = field k v stop
put k v (field j w fs) = if j == k then field k v fs else field j w (put k v fs)

pub get-put :
    (k j : String) (v : Tree) (fs : Fields)
    → get j (put k v fs) ≡ (if k == j then some v else get j fs)
get-put k j v stop = refl
get-put k j v (field i w fs) =
    ground (arith, string_iff k j, string_iff i k, string_iff i j, get-put k j v fs)

abbrev or_nil : Option Tree → Tree
or_nil none = nil
or_nil (some v) = v

abbrev is_object : Tree → Bool
is_object (obj fs) = true
is_object _ = false

abbrev is_array : Tree → Bool
is_array (arr vs) = true
is_array _ = false

abbrev is_null : Tree → Bool
is_null nil = true
is_null _ = false

abbrev is_boolean : Tree → Bool
is_boolean (bool b) = true
is_boolean _ = false

abbrev is_integer : Tree → Bool
is_integer (int n) = true
is_integer _ = false

abbrev is_string : Tree → Bool
is_string (str s) = true
is_string _ = false

abbrev has_field : Tree → String → Bool
has_field (obj fs) j = is_some (get j fs)
has_field _ j = false

abbrev at : Tree → String → Tree
at (obj fs) j = or_nil (get j fs)
at _ j = nil

abbrev as_string : Tree → Except String
as_string (str s) = ok s
as_string _ = err "not a string"

abbrev as_bool : Tree → Except Bool
as_bool (bool b) = ok b
as_bool _ = err "not a boolean"

abbrev as_integer : Tree → Except ℤ
as_integer (int n) = ok n
as_integer _ = err "not an integer"

abbrev as_double : Tree → Except ℤ
as_double (int n) = ok n
as_double (dbl n) = ok n
as_double _ = err "not a number"

abbrev as_array : Tree → List Tree
as_array (arr vs) = of_items vs
as_array _ = []

abbrev set : Tree → String → Tree → Tree
set (obj fs) k v = obj (put k v fs)
set o k v = o

pub is_object-set :
    (o : Tree) (k : String) (v : Tree) → is_object o ≡ true → is_object (set o k v) ≡ true
is_object-set (obj fs) k v h = refl
is_object-set _ k v h = cc

pub has_field-set :
    (o : Tree) (k j : String) (v : Tree)
    → is_object o ≡ true
    → has_field (set o k v) j ≡ ((k == j) || has_field o j)
has_field-set (obj fs) k j v h = ground (arith, get-put k j v fs)
has_field-set _ k j v h = cc

pub at-set :
    (o : Tree) (k j : String) (v : Tree)
    → is_object o ≡ true
    → at (set o k v) j ≡ (if k == j then v else at o j)
at-set (obj fs) k j v h = ground (arith, get-put k j v fs)
at-set _ k j v h = cc

pub is_null-object : (o : Tree) → is_object o ≡ true → is_null o ≡ false
is_null-object (obj fs) h = refl
is_null-object nil h = cc
is_null-object _ h = refl

pub is_array-object : (o : Tree) → is_object o ≡ true → is_array o ≡ false
is_array-object (obj fs) h = refl
is_array-object (arr vs) h = cc
is_array-object _ h = refl

abbrev pub tree_json : Json
tree_json = record {
  Double = ℤ;
  double_zero = pos 0;
  double_eq = eqb_ℤ;
  Value = Tree;
  is_object = is_object;
  is_array = is_array;
  is_null = is_null;
  is_boolean = is_boolean;
  is_integer = is_integer;
  is_string = is_string;
  has_field = has_field;
  at = at;
  as_string = as_string;
  as_bool = as_bool;
  as_integer = as_integer;
  as_int64 = as_integer;
  as_double = as_double;
  as_array = as_array;
  null = nil;
  object = obj stop;
  set = set;
  array = λ vs. arr (to_items vs);
  string = str;
  number = int;
  number_double = dbl;
  boolean = bool;
  is_object-object = refl;
  is_object-set = is_object-set;
  has_field-object = λ k. refl;
  has_field-set = has_field-set;
  at-set = at-set;
  is_null-object = is_null-object;
  is_array-object = is_array-object;
  is_null-string = λ s. refl;
  is_null-number = λ n. refl;
  is_null-number_double = λ d. refl;
  is_null-boolean = λ b. refl;
  is_null-array = λ vs. refl;
  as_string-string = λ s. refl;
  is_boolean-boolean = λ b. refl;
  as_bool-boolean = λ b. refl;
  as_integer-number = λ n. refl;
  as_int64-number = λ n. refl;
  as_double-number_double = λ d. refl;
  is_array-array = λ vs. refl;
  as_array-array = of_items-to_items;
}
