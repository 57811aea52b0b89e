-- ===== src/Validation/Required.antt =====
-- The field tests at the end of blackboard/validation.py.
pub mod Laws
use blackboard_coordination.Base.{
  String, Bool, true, false, not, ◌&&◌, Option, none, some, List, [], ◌∷◌,
}
use Prim.Native.String.{◌++◌}
use blackboard_coordination.Base.Int.{ℤ, ltb_ℤ}
use blackboard_coordination.Python.Result.{
  Result, ok, Check, pass, reject, reject_if, require, ◌and_then◌, ◌>>=◌,
}
use blackboard_coordination.Python.Value.{
  Float, finite, Value, Items, Fields, bool, int, float, str, list, dict, nil, cons, get, float_lt,
  is_finite, float_of_int,
}
use blackboard_coordination.Python.Text.{has_text, upper}

-- f"{field_name.upper()}_REQUIRED" and its like
abbrev pub code_of : String → String → String
unfolding upper
code_of field_name suffix = upper field_name ++ suffix

-- `_is_int`: `type(value) is int`, which a bool is not.
abbrev pub is_int : Value → Bool
is_int (int n) = true
is_int _ = false

abbrev pub is_bool : Value → Bool
is_bool (bool b) = true
is_bool _ = false

abbrev pub is_str : Value → Bool
is_str (str s) = true
is_str _ = false

abbrev pub is_dict : Value → Bool
is_dict (dict d) = true
is_dict _ = false

abbrev pub is_list : Value → Bool
is_list (list xs) = true
is_list _ = false

-- `_is_finite_number`: `float(value)` raises for a huge int.
unfoldable pub is_finite_number : Value → Result Bool
is_finite_number (int n) = do x ← float_of_int n; ok (is_finite x)
is_finite_number (float x) = ok (is_finite x)
is_finite_number _ = ok false

unfoldable pub is_nonempty_string : Value → Bool
is_nonempty_string (str s) = has_text s
is_nonempty_string _ = false

pub all_str : Items → Bool
all_str nil = true
all_str (cons v vs) = is_str v && all_str vs

unfoldable pub is_string_list : Value → Bool
unfolding all_str
is_string_list (list xs) = all_str xs
is_string_list _ = false

-- `float(value)` of a value that passed `_is_finite_number`, for a comparison.
abbrev pub number_of : Value → Result Float
number_of (int n) = float_of_int n
number_of (float x) = ok x
number_of _ = ok (finite (ℤ.pos 0) 0)

unfoldable pub required_nonempty_string : Fields → String → Check
required_nonempty_string content name = elim (get content name) [
  | none ↦ reject (code_of name "_REQUIRED")
  | some v ↦ reject_if (not (is_nonempty_string v)) (code_of name "_INVALID")
]

int_at_least : Value → ℤ → String → Check
int_at_least (int n) minimum name = reject_if (ltb_ℤ n minimum) (code_of name "_OUT_OF_RANGE")
int_at_least _ minimum name = reject (code_of name "_TYPE_INVALID")

unfoldable pub required_int : Fields → String → ℤ → Check
unfolding int_at_least
required_int content name minimum = elim (get content name) [
  | none ↦ reject (code_of name "_REQUIRED")
  | some v ↦ int_at_least v minimum name
]

below : Option Float → Value → Result Bool
below none v = ok false
below (some minimum) v = do x ← number_of v; ok (float_lt x minimum)

abbrev unless : Result Bool → Result Bool
unless m = do b ← m; ok (not b)

unfoldable pub number_at_least : Value → Option Float → String → Check
unfolding below
number_at_least v minimum name =
    require (is_finite_number v) (code_of name "_TYPE_INVALID")
    and_then require (unless (below minimum v)) (code_of name "_OUT_OF_RANGE")

unfoldable pub required_number : Fields → String → Option Float → Check
unfolding number_at_least
required_number content name minimum = elim (get content name) [
  | none ↦ reject (code_of name "_REQUIRED")
  | some v ↦ number_at_least v minimum name
]

unfoldable pub required_list : Fields → String → Check
required_list content name = elim (get content name) [
  | none ↦ reject (code_of name "_REQUIRED")
  | some v ↦ reject_if (not (is_list v)) (code_of name "_TYPE_INVALID")
]

-- `for field_name in names: error = f(field_name); if error is not None: return error`
abbrev pub each {ℓ} : {A : Type ℓ} → (A → Check) → List A → Check
each f [] = pass
each f (x ∷ xs) = f x and_then each f xs

-- The same over the items of a payload's list.
abbrev pub each_item : (Value → Check) → Items → Check
each_item f nil = pass
each_item f (cons v vs) = f v and_then each_item f vs

-- A field that must be tested only where it is present.
abbrev pub if_present : Fields → String → (Value → Check) → Check
if_present content name test = elim (get content name) [ none ↦ pass | some v ↦ test v ]
