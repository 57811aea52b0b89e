-- ===== src/Python/Text.antt =====
-- `str.strip` and `str.upper`, as far as the validators use them.
use Prim.Native.Char.{Char, code}
use Prim.Native.String.{slice, ◌++◌}
use blackboard_coordination.Base.{
  ℕ, ◌-◌, String, ◌≡◌, refl, Bool, false, not, ◌&&◌, ◌||◌, leb, nat_eq, if◌then◌else◌,
}

-- The code points that `str.isspace` accepts.
unfoldable pub is_space : ℕ → Bool
is_space c =
    (leb 9 c && leb c 13)
    || (leb 28 c && leb c 32)
    || nat_eq c 133
    || nat_eq c 160
    || nat_eq c 5760
    || (leb 8192 c && leb c 8202)
    || nat_eq c 8232
    || nat_eq c 8233
    || nat_eq c 8239
    || nat_eq c 8287
    || nat_eq c 12288

-- `bool(s.strip())`: some character is no white space.
unfoldable pub has_text : String → Bool
unfolding is_space
has_text String.[] = false
has_text (String.◌∷◌ c s) = not (is_space (code c)) || has_text s

abbrev letters : String
letters = "ABCDEFGHIJKLMNOPQRSTUVWXYZ"

upper_char : Char → String
upper_char c =
    let n = code c in
    if leb b'a' n && leb n b'z' then slice letters (n - b'a') (n - 96) else String.◌∷◌ c String.[]

-- `s.upper()`, for the ASCII names of payload fields
unfoldable pub upper : String → String
unfolding upper_char
upper String.[] = ""
upper (String.◌∷◌ c s) = upper_char c ++ upper s

upper_field : upper "task_id" ≡ "TASK_ID"
unfolding upper
upper_field = refl

blank_text : has_text "  " ≡ false
unfolding has_text
blank_text = refl
