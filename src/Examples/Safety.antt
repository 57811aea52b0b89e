-- ===== src/Examples/Safety.antt =====
-- The leases, the guardrail and the emergency stop at concrete inputs.
use blackboard_coordination.Base.Dict.{lookup}
use blackboard_coordination.Python.Value.{empty, entry, bool, truthy, get_or, null}
use blackboard_coordination.Board.State.{claim, Board, new_board, release}
use blackboard_coordination.Base.{
  ◌≡◌, refl, true, not, ◌&&◌, ◌||◌, none, some, [], ◌∷◌, member, if◌then◌else◌, ◌==◌,
}
use blackboard_coordination.Board.Leases.{holder, claim-claim, held_by, release_lem}
use blackboard_coordination.Safety.Gate.{ActionIntent, check, is_stopped, signal, clear}
use blackboard_coordination.Safety.Gate.Laws.{
  check-allowed, check-needs_auth, is_stopped-signal, is_stopped-clear,
}

abbrev leased : Board
leased = (claim "lane" "a" new_board).0

free : holder "lane" new_board ≡ none
unfolding lookup
free = refl

claim-claim_example :
    (holder "dock" (claim "lane" "a" new_board).0
      ≡ (if "lane" == "dock" then some "a" else holder "dock" new_board))
    × ((claim "lane" "b" (claim "lane" "a" new_board).0).1 ≡ ("a" == "b"))
claim-claim_example = claim-claim "lane" "a" "b" "dock" new_board free

release_lem_example :
    holder "lane" (release "lane" "b" leased)
    ≡ (if "lane" == "lane" && held_by "lane" "b" leased then none else holder "lane" leased)
release_lem_example = release_lem "lane" "b" "lane" leased

abbrev pick : ActionIntent
pick = record {
  intent_id = "i";
  device_id = "a";
  task_id = none;
  extra = empty;
  verb = "pick_place";
  params = entry "enclosed" (bool true) empty;
  reversible = true;
}

check-allowed_example : (check pick empty).allowed ≡ (
    not (truthy (get_or empty "in_forbidden_zone" null))
    && pick.reversible
    && not (truthy (get_or pick.params "enclosed" null))
    && not (pick.verb == "pick_place"))
check-allowed_example = check-allowed pick empty

check-needs_auth_example :
    (check pick empty).needs_auth
    ≡ (not (truthy (get_or empty "in_forbidden_zone" null)) && not (check pick empty).allowed)
check-needs_auth_example = check-needs_auth pick empty

is_stopped-signal_example :
    is_stopped "a" (signal "all" ("b" ∷ []))
    ≡ ("all" == "all" || "a" == "all" || is_stopped "a" ("b" ∷ []))
is_stopped-signal_example = is_stopped-signal "a" "all" ("b" ∷ [])

is_stopped-clear_example : is_stopped "b" (clear "all" ("all" ∷ "b" ∷ [])) ≡ (
    (not ("all" == "all") && member "all" ("all" ∷ "b" ∷ []))
    || (not ("b" == "all") && member "b" ("all" ∷ "b" ∷ [])))
is_stopped-clear_example = is_stopped-clear "b" "all" ("all" ∷ "b" ∷ [])
