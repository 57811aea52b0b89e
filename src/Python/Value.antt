-- ===== src/Python/Value.antt =====
-- JSON values as the program holds them.
use blackboard_coordination.Base.{
  ℕ, suc, ◌+◌, ◌^◌, ◌-◌, String, Bool, true, false, not, ◌&&◌, ◌||◌, Option, none, some, List, [],
  ◌∷◌, leb, nat_eq, member, if◌then◌else◌, ◌==◌,
}
use blackboard_coordination.Base.Int.{ℤ, pos, pos_part, neg_part, ltb_ℤ, eq_ℤ, ◌*ℤ◌, trunc_div}
use blackboard_coordination.Python.Result.{
  Result, ok, raised, type_error, value_error, overflow_error, key_error,
}

-- A `float`: not a number, an infinity (negative or not), or the rational `n / (d + 1)` in lowest
-- terms. Doubles are among these, and their order is that of the rationals; the sign of zero is
-- not kept.
pub data Float : Type 0 where
  nan : Float
  infinite : Bool → Float
  finite : ℤ → ℕ → Float

mutual
  pub data Value : Type 0 where
    null : Value
    bool : Bool → Value
    int : ℤ → Value
    float : Float → Value
    str : String → Value
    list : Items → Value
    dict : Fields → Value

  pub data Items : Type 0 where
    nil : Items
    cons : Value → Items → Items

  pub data Fields : Type 0 where
    empty : Fields
    entry : String → Value → Fields → Fields

abbrev pub items : Items → List Value
items nil = []
items (cons v vs) = v ∷ items vs

-- `dict.get(key)`: `none` where the key is missing.
abbrev pub get : Fields → String → Option Value
get empty key = none
get (entry k v rest) key = if k == key then some v else get rest key

-- `dict.get(key, default)`
abbrev pub get_or : Fields → String → Value → Value
get_or d key v = elim (get d key) [ none ↦ v | some x ↦ x ]

-- `key in dict`
abbrev pub has : Fields → String → Bool
has d key = elim (get d key) [ none ↦ false | some _ ↦ true ]

-- `dict[key]`
abbrev pub index : Fields → String → Result Value
index d key = elim (get d key) [ none ↦ raised key_error | some v ↦ ok v ]

abbrev pub keys : Fields → List String
keys empty = []
keys (entry k v rest) = k ∷ keys rest

-- `d[key] = v`
abbrev pub put : String → Value → Fields → Fields
put key v empty = entry key v empty
put key v (entry k w rest) = if k == key then entry k v rest else entry k w (put key v rest)

abbrev pub size : Fields → ℕ
size empty = 0
size (entry k v rest) = suc (size rest)

abbrev pub size_items : Items → ℕ
size_items nil = 0
size_items (cons v vs) = suc (size_items vs)

-- Order and equality of floats: every comparison with nan is false.
abbrev pub float_lt : Float → Float → Bool
float_lt (finite a b) (finite c d) = ltb_ℤ (a *ℤ pos (suc d)) (c *ℤ pos (suc b))
float_lt (finite a b) (infinite negative) = not negative
float_lt (infinite negative) (finite a b) = negative
float_lt (infinite n) (infinite m) = n && not m
float_lt _ _ = false

abbrev bool_eq : Bool → Bool → Bool
bool_eq true b = b
bool_eq false b = not b

abbrev pub float_eq : Float → Float → Bool
float_eq (finite a b) (finite c d) = eq_ℤ (a *ℤ pos (suc d)) (c *ℤ pos (suc b))
float_eq (infinite n) (infinite m) = bool_eq n m
float_eq _ _ = false

-- `math.isfinite`
abbrev pub is_finite : Float → Bool
is_finite (finite a b) = true
is_finite _ = false

abbrev pub float_le : Float → Float → Bool
float_le a b = float_lt a b || float_eq a b

abbrev pub zero_float : Float
zero_float = finite (pos 0) 0

abbrev pub one_float : Float
one_float = finite (pos 1) 0

-- What `==` compares a number by: `True == 1 == 1.0`.
abbrev numeric : Value → Option Float
numeric (bool b) = some (finite (pos (if b then 1 else 0)) 0)
numeric (int n) = some (finite n 0)
numeric (float x) = some x
numeric _ = none

abbrev numeric_eq : Option Float → Option Float → Bool
numeric_eq (some x) (some y) = float_eq x y
numeric_eq _ _ = false

-- `v == w`. Lists are compared in order, dicts by keys.
unfoldable mutual
  pub py_eq : Value → Value → Bool
  py_eq null null = true
  py_eq (str s) (str t) = s == t
  py_eq (list xs) (list ys) = nat_eq (size_items xs) (size_items ys) && items_eq xs ys
  py_eq (dict xs) (dict ys) = nat_eq (size xs) (size ys) && fields_eq xs ys
  py_eq v w = numeric_eq (numeric v) (numeric w)

  pub items_eq : Items → Items → Bool
  items_eq nil nil = true
  items_eq (cons x xs) (cons y ys) = py_eq x y && items_eq xs ys
  items_eq _ _ = false

  pub fields_eq : Fields → Fields → Bool
  fields_eq empty ys = true
  fields_eq (entry k v rest) ys =
      elim (get ys k) [ none ↦ false | some w ↦ py_eq v w ] && fields_eq rest ys

-- `bool(v)`, as `if v` and `v or w` read it.
abbrev pub truthy : Value → Bool
truthy null = false
truthy (bool b) = b
truthy (int n) = not (eq_ℤ n (pos 0))
truthy (float x) = not (float_eq x zero_float)
truthy (str s) = not (s == "")
truthy (list nil) = false
truthy (list (cons _ _)) = true
truthy (dict empty) = false
truthy (dict (entry _ _ _)) = true

-- `hash(v)` raises for lists and dicts: so `v in {"a", "b"}` does.
abbrev pub in_set : Value → List String → Result Bool
in_set (str s) options = ok (member s options)
in_set (list _) options = raised type_error
in_set (dict _) options = raised type_error
in_set _ options = ok false

-- `float(n)` raises where `n` rounds to nothing below 2 ** 1024. The result is not rounded: it is
-- only compared with 0 and 1, which rounding does not pass.
unfoldable pub float_limit : ℕ
float_limit = 2 ^ 1024 - 2 ^ 970

unfoldable pub float_of_int : ℤ → Result Float
float_of_int n =
    if leb float_limit (pos_part n + neg_part n) then raised overflow_error else ok (finite n 0)

-- What the built-ins answer where the texts of numbers matter: `repr` of a float, a list or a
-- dict, and the numbers that `int` and `float` read from a text (`none`: `ValueError`).
pub record Builtins : Type 0 where
  pub repr : Value → String
  pub parse_int : String → Option ℤ
  pub parse_float : String → Option Float
  pub int_text : ℤ → String

abbrev or_value_error {ℓ} : {A : Type ℓ} → Option A → Result A
or_value_error none = raised value_error
or_value_error (some a) = ok a

module _ ⦃py : Builtins⦄ where
  -- `str(v)`
  unfoldable pub to_str : Value → String
  to_str null = "None"
  to_str (bool true) = "True"
  to_str (bool false) = "False"
  to_str (int n) = py.int_text n
  to_str (str s) = s
  to_str v = py.repr v

  -- `int(v)`: a float is cut towards zero.
  unfoldable pub to_int : Value → Result ℤ
  to_int null = raised type_error
  to_int (bool b) = ok (pos (if b then 1 else 0))
  to_int (int n) = ok n
  to_int (float nan) = raised value_error
  to_int (float (infinite _)) = raised overflow_error
  to_int (float (finite n d)) = ok (trunc_div n (suc d))
  to_int (str s) = or_value_error (py.parse_int s)
  to_int (list _) = raised type_error
  to_int (dict _) = raised type_error

  -- `float(v)`
  unfoldable pub to_float : Value → Result Float
  unfolding float_of_int
  to_float null = raised type_error
  to_float (bool b) = ok (finite (pos (if b then 1 else 0)) 0)
  to_float (int n) = float_of_int n
  to_float (float x) = ok x
  to_float (str s) = or_value_error (py.parse_float s)
  to_float (list _) = raised type_error
  to_float (dict _) = raised type_error
