-- ===== src/Python/Result/Laws.antt =====
-- Inversion of the combinators: what a call that returned, or a check that passed, went through.
use blackboard_coordination.Base.{String, ◌≡◌, refl, Bool, true, false, none, some}
use blackboard_coordination.Python.Result.{
  Result, ok, raised, Check, pass, reject_if, require, recode, ◌and_then◌, ◌>>=◌,
}

-- A bind that returned: its call returned, and so did the rest with that value.
pub >>=-eq-ok {ℓ κ} :
    {S : Type ℓ} {T : Type κ} (call : Result S) (rest : S → Result T) {t : T}
    → (call >>= rest) ≡ ok t
    → (s : S) × (call ≡ ok s) × (rest s ≡ ok t)
>>=-eq-ok (raised x) rest h = cc
>>=-eq-ok (ok s) rest h = (s, refl, h)

pub and_then-pass : (m k : Check) → (m and_then k) ≡ pass → (m ≡ pass) × (k ≡ pass)
and_then-pass (ok none) k h = (refl, h)
and_then-pass (ok (some c)) k h = cc
and_then-pass (raised e) k h = cc

pub reject_if-pass : (b : Bool) (code : String) → reject_if b code ≡ pass → b ≡ false
reject_if-pass true code h = cc
reject_if-pass false code h = refl

pub require-pass : (m : Result Bool) (code : String) → require m code ≡ pass → m ≡ ok true
require-pass (ok true) code h = refl
require-pass (ok false) code h = cc
require-pass (raised e) code h = cc

pub recode-pass : (m : Check) (code : String) → recode m code ≡ pass → m ≡ pass
recode-pass (ok none) code h = refl
recode-pass (ok (some c)) code h = cc
recode-pass (raised e) code h = cc
