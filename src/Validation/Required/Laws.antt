-- ===== src/Validation/Required/Laws.antt =====
-- What a field that passed its test holds.
use blackboard_coordination.Base.{
  String, ◌≡◌, refl, ◌∙◌, ap, true, false, Option, none, some, arith,
}
use blackboard_coordination.Base.Int.{ℤ, ltb_ℤ}
use blackboard_coordination.Python.Result.{pass, reject}
use blackboard_coordination.Python.Result.Laws.{reject_if-pass}
use blackboard_coordination.Python.Value.{Value, Items, Fields, int, str, list, get, null}
use blackboard_coordination.Python.Text.{has_text}
use blackboard_coordination.Validation.Required.{
  required_int, required_nonempty_string, is_string_list, int_at_least, is_nonempty_string, all_str,
  code_of,
}

abbrev pub HasInt : Fields → String → ℤ → Type 0
HasInt content name minimum =
    (n : ℤ) × (get content name ≡ some (int n)) × (ltb_ℤ n minimum ≡ false)

abbrev pub HasText : Fields → String → Type 0
HasText content name = (s : String) × (get content name ≡ some (str s)) × (has_text s ≡ true)

int_at_least-pass :
    (v : Value) (minimum : ℤ) (name : String)
    → int_at_least v minimum name ≡ pass
    → (n : ℤ) × (v ≡ int n) × (ltb_ℤ n minimum ≡ false)
unfolding int_at_least
int_at_least-pass (int n) minimum name h = (n, refl, reject_if-pass (ltb_ℤ n minimum) _ h)
int_at_least-pass null minimum name h = cc
int_at_least-pass _ minimum name h = cc

pub required_int-pass :
    (content : Fields) (name : String) (minimum : ℤ)
    → required_int content name minimum ≡ pass
    → HasInt content name minimum
unfolding required_int
required_int-pass content name minimum h = go (get content name) refl h
  where
    go :
        (o : Option Value)
        → get content name ≡ o
        → elim o [ none ↦ reject (code_of name "_REQUIRED") | some v ↦ int_at_least v minimum name ]
          ≡ pass
        → HasInt content name minimum
    go none p q = cc
    go (some v) p q = let (n, e, l) = int_at_least-pass v minimum name q in (n, p ∙ ap some e, l)

pub required_nonempty_string-pass :
    (content : Fields) (name : String)
    → required_nonempty_string content name ≡ pass
    → HasText content name
unfolding required_nonempty_string is_nonempty_string
required_nonempty_string-pass content name h = ground arith

-- The texts of a list of texts.
abbrev pub Texts : Value → Type 0
Texts v = (xs : Items) × (v ≡ list xs) × (all_str xs ≡ true)

pub is_string_list-Texts : (v : Value) → is_string_list v ≡ true → Texts v
unfolding is_string_list
is_string_list-Texts (list xs) h = (xs, refl, h)
is_string_list-Texts Value.null h = cc
is_string_list-Texts _ h = cc
