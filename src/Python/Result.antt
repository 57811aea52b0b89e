-- ===== src/Python/Result.antt =====
-- A call of Python code that returns a value or raises, and a validator's verdict: a rejection
-- code, or `None` when the payload is accepted.
use blackboard_coordination.Base.{String, Bool, true, false, not, Option, none, some}
pub mod Laws

pub data Exn : Type 0 where
  type_error value_error overflow_error key_error attribute_error : Exn

pub data Result {ℓ} (A : Type ℓ) : Type ℓ where
  raised : Exn → Result A
  ok : A → Result A

-- The rest runs with the value that the call returned; an exception ends both.
infixl 5 ◌>>=◌
abbrev pub ◌>>=◌ {ℓ κ} : {S : Type ℓ} {T : Type κ} → Result S → (S → Result T) → Result T
raised x >>= rest = raised x
ok s >>= rest = rest s

infixl 5 ◌>>◌
abbrev pub ◌>>◌ {ℓ κ} : {S : Type ℓ} {T : Type κ} → Result S → Result T → Result T
call >> rest = call >>= λ _. rest

-- `Optional[str]`: a rejection code, or `None`.
abbrev pub Check : Type 0
Check = Result (Option String)

abbrev pub pass : Check
pass = ok none

abbrev pub reject : String → Check
reject code = ok (some code)

-- `error = m; if error is not None: return error`, and then `k`.
infixr 6 ◌and_then◌
abbrev pub ◌and_then◌ : Check → Check → Check
ok none and_then k = k
ok (some c) and_then k = ok (some c)
raised e and_then k = raised e

-- `if b: return code`
abbrev pub reject_if : Bool → String → Check
reject_if true code = reject code
reject_if false code = pass

-- `if not b: return code`, where computing `b` may raise
abbrev pub require : Result Bool → String → Check
require (ok b) code = reject_if (not b) code
require (raised e) code = raised e

-- `if m is not None: return code`: any rejection by `m` is reported as `code`.
abbrev pub recode : Check → String → Check
recode (ok none) code = pass
recode (ok (some _)) code = reject code
recode (raised e) code = raised e
