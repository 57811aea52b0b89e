-- ===== src/Python/Json.antt =====
-- `json.dumps(value, sort_keys=True)` as far as the program compares such texts: the text is
-- stood for by its tree with sorted keys, since two trees have one text exactly when they agree.
use Prim.Native.String.{compare}
use text.Mathlib.Text.{is_lt}
use blackboard_coordination.Base.{
  String, ◌≡◌, refl, Bool, true, false, ◌&&◌, ◌==◌, eq_refl, if◌then◌else◌, nat_eq, arith,
}
use blackboard_coordination.Base.Int.{eq_ℤ}
use blackboard_coordination.Python.Value.{
  Float, nan, infinite, finite, Value, Items, Fields, null, bool, int, float, str, list, dict, nil,
  cons, empty, entry,
}

unfoldable pub insert_key : String → Value → Fields → Fields
insert_key k v empty = entry k v empty
insert_key k v (entry j w rest) =
    if is_lt (compare k j) then entry k v (entry j w rest) else entry j w (insert_key k v rest)

-- The tree with the keys of every dict sorted.
unfoldable mutual
  pub sort_keys : Value → Value
  sort_keys null = null
  sort_keys (bool b) = bool b
  sort_keys (int n) = int n
  sort_keys (float x) = float x
  sort_keys (str s) = str s
  sort_keys (list xs) = list (sort_items xs)
  sort_keys (dict xs) = dict (sort_fields xs)

  pub sort_items : Items → Items
  sort_items nil = nil
  sort_items (cons x xs) = cons (sort_keys x) (sort_items xs)

  pub sort_fields : Fields → Fields
  sort_fields empty = empty
  sort_fields (entry k v rest) = insert_key k (sort_keys v) (sort_fields rest)

abbrev same_bool : Bool → Bool → Bool
same_bool true b = b
same_bool false b = if b then false else true

-- The texts of two floats agree: of two nans too.
abbrev same_float : Float → Float → Bool
same_float nan nan = true
same_float (infinite a) (infinite b) = same_bool a b
same_float (finite a b) (finite c d) = eq_ℤ a c && nat_eq b d
same_float _ _ = false

-- The texts of two trees agree.
unfoldable mutual
  pub same_text : Value → Value → Bool
  same_text null null = true
  same_text (bool a) (bool b) = same_bool a b
  same_text (int n) (int m) = eq_ℤ n m
  same_text (float x) (float y) = same_float x y
  same_text (str s) (str t) = s == t
  same_text (list xs) (list ys) = same_items xs ys
  same_text (dict xs) (dict ys) = same_fields xs ys
  same_text _ _ = false

  pub same_items : Items → Items → Bool
  same_items nil nil = true
  same_items (cons x xs) (cons y ys) = same_text x y && same_items xs ys
  same_items _ _ = false

  pub same_fields : Fields → Fields → Bool
  same_fields empty empty = true
  same_fields (entry j v xs) (entry k w ys) = j == k && same_text v w && same_fields xs ys
  same_fields _ _ = false

same_float_refl : (x : Float) → same_float x x ≡ true
same_float_refl nan = refl
same_float_refl (infinite b) = ground arith
same_float_refl (finite a b) = ground arith

mutual
  unfolding same_text

  same_text_self : (v : Value) → same_text v v ≡ true
  same_text_self null = refl
  same_text_self (bool b) = ground arith
  same_text_self (int n) = ground arith
  same_text_self (float x) = same_float_refl x
  same_text_self (str s) = eq_refl s
  same_text_self (list xs) = same_items_self xs
  same_text_self (dict xs) = same_fields_self xs

  same_items_self : (xs : Items) → same_items xs xs ≡ true
  same_items_self nil = refl
  same_items_self (cons x xs) = ground (arith, same_text_self x, same_items_self xs)

  same_fields_self : (xs : Fields) → same_fields xs xs ≡ true
  same_fields_self empty = refl
  same_fields_self (entry k v xs) = ground (arith, eq_refl k, same_text_self v, same_fields_self xs)

pub same_text_refl : (v : Value) → same_text v v ≡ true
same_text_refl v = same_text_self v

sorted_once :
    sort_keys (dict (entry "b" null (entry "a" null empty)))
    ≡ dict (entry "a" null (entry "b" null empty))
unfolding sort_keys insert_key
sorted_once = refl
