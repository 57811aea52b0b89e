-- ===== src/Safety/Gate/Laws.antt =====
-- When the guardrail lets an action through, and what stops a device.
use blackboard_coordination.Base.{
  String, ◌≡◌, not, ◌&&◌, ◌||◌, ◌==◌, eq_iff, [], ◌∷◌, member, arith,
}
use blackboard_coordination.Python.Value.{Fields, null, get_or, truthy}
use blackboard_coordination.Safety.Gate.{
  ActionIntent, classify, check, signal, clear, is_stopped, Stopped,
}

-- The guardrail allows an action exactly when it is outside a forbidden zone, declared
-- reversible, not in an enclosed space, and not a pick and place.
pub check-allowed :
    (intent : ActionIntent) (context : Fields)
    → (check intent context).allowed ≡ (
        not (truthy (get_or context "in_forbidden_zone" null))
        && intent.reversible
        && not (truthy (get_or intent.params "enclosed" null))
        && not (intent.verb == "pick_place"))
unfolding check classify
check-allowed intent context = ground arith

-- The guardrail asks for an authorisation exactly when it does not allow the action and the action
-- is outside a forbidden zone.
pub check-needs_auth :
    (intent : ActionIntent) (context : Fields)
    → (check intent context).needs_auth ≡ (
        not (truthy (get_or context "in_forbidden_zone" null))
        && not (check intent context).allowed)
unfolding check classify
check-needs_auth intent context = ground arith

member-clear :
    (d s : String) (stopped : Stopped)
    → member d (clear s stopped) ≡ (not (d == s) && member d stopped)
unfolding clear
member-clear d s [] = ground arith
member-clear d s (t ∷ ts) = ground (arith, member-clear d s ts, eq_iff d s, eq_iff t s, eq_iff d t)

member-signal :
    (d s : String) (stopped : Stopped) → member d (signal s stopped) ≡ (d == s || member d stopped)
unfolding signal
member-signal d s stopped = ground (arith, eq_iff d s)

-- A device is stopped after a signal exactly when the signal was for it or for all, or it was
-- stopped before. So a signal for an area, which contracts/bypass.py names as a third kind of scope,
-- stops no device (of another name than the area).
pub is_stopped-signal :
    (d s : String) (stopped : Stopped)
    → is_stopped d (signal s stopped) ≡ ("all" == s || d == s || is_stopped d stopped)
unfolding is_stopped
is_stopped-signal d s stopped =
    ground (arith, member-signal "all" s stopped, member-signal d s stopped)

-- A device is stopped after a scope is cleared exactly when a stop remains that is for another
-- scope: for all, or for the device. So clearing all scopes leaves the devices that were stopped
-- by name.
pub is_stopped-clear :
    (d s : String) (stopped : Stopped)
    → is_stopped d (clear s stopped)
      ≡ ((not ("all" == s) && member "all" stopped) || (not (d == s) && member d stopped))
unfolding is_stopped
is_stopped-clear d s stopped =
    ground (arith, member-clear "all" s stopped, member-clear d s stopped)
