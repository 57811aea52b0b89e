-- ===== src/Safety/Gate.antt =====
-- safety/reversibility.py, safety/guardrail.py, safety/estop.py: which actions may be done
-- autonomously, and the emergency stop.
pub mod Laws
use blackboard_coordination.Base.{
  Option, String, Bool, true, false, not, ◌&&◌, ◌||◌, ◌==◌, List, [], ◌∷◌, member, keep,
  if◌then◌else◌,
}
use blackboard_coordination.Python.Value.{Fields, Value, null, get_or, truthy}

pub data Reversibility : Type 0 where
  r0 r1 r2 : Reversibility

-- `ActionIntent`; the verb is the text of its `ActionVerb`.
pub record ActionIntent : Type 0 where
  pub intent_id : String
  pub device_id : String
  pub verb : String
  pub params : Fields
  pub reversible : Bool
  pub task_id : Option String
  pub extra : Fields

abbrev irreversible_verbs : List String
irreversible_verbs = "pick_place" ∷ []

-- `classify`
unfoldable pub classify : ActionIntent → Fields → Reversibility
classify intent context =
    if truthy (get_or context "in_forbidden_zone" null)
    then r2
    else if not intent.reversible || truthy (get_or intent.params "enclosed" null)
    then r1
    else if member intent.verb irreversible_verbs
    then r1
    else r0

-- `Verdict`, without its reason text
pub record Verdict : Type 0 where
  pub allowed : Bool
  pub needs_auth : Bool
  pub reversibility : Reversibility

-- `Guardrail.check`
unfoldable pub check : ActionIntent → Fields → Verdict
check intent context = elim (classify intent context) [
  | r2 ↦ record { allowed = false; needs_auth = false; reversibility = r2 }
  | r1 ↦ record { allowed = false; needs_auth = true; reversibility = r1 }
  | r0 ↦ record { allowed = true; needs_auth = false; reversibility = r0 }
]

-- `MockEmergencyStopBus._stopped`: the scopes that are stopped. The events that the bus appends
-- and the lines that it prints are not part of this state.
abbrev pub Stopped : Type 0
Stopped = List String

unfoldable pub signal : String → Stopped → Stopped
signal scope stopped = if member scope stopped then stopped else scope ∷ stopped

unfoldable pub clear : String → Stopped → Stopped
clear scope stopped = keep (λ s. not (s == scope)) stopped

unfoldable pub is_stopped : String → Stopped → Bool
is_stopped device_id stopped = member "all" stopped || member device_id stopped
