-- ===== src/Policy/Bids/Agreement.antt =====
-- coordination/policy.py: an accepted offer of `EligibilityBidEngine`, and the checks that
-- `MinimalPlanValidator` makes of the owner's state.
use mathlib.Core.Path.{subst}
use blackboard_coordination.Base.{
  String, ◌≡◌, refl, true, false, not, ◌&&◌, ◌||◌, Option, none, some, List, [], member, all, arith,
  ◌∙◌, sym, ap,
}
use blackboard_coordination.Python.Result.{ok}
use blackboard_coordination.Python.Result.Laws.{>>=-eq-ok}
use blackboard_coordination.Python.Value.{
  Builtins, Float, Fields, float_lt, zero_float, str, get, py_eq,
}
use blackboard_coordination.Policy.Data.{
  RoleSlot, AgentPublicSnapshot, ExecutionAvailability, BidOffer, CandidateAssignment,
  GroupPlanningInput, eligible,
}
use blackboard_coordination.Policy.Violations.{
  state_violations, slot_violations, owner_violations, other_task,
}
use blackboard_coordination.Policy.Bids.{
  Arithmetic, EligibilityBidEngine, metrics_of, is_fresh, evaluate_slot, slot_verb, as_dict, get_or,
  dict, empty, minimum, space_constraints_satisfied, list, nil, distance_to_task, null, offer_of,
  py_eq, idle_for, same_task, has_capability, to_dict,
}
use blackboard_coordination.Policy.Bids.Reasons.{accepted_only, margin_kept}
use blackboard_coordination.View.Match.{to_dict}

module _ ⦃py : Builtins⦄ ⦃fp : Arithmetic⦄ where
  -- An owner without violations, from what each check reads.
  owner_violations-nil :
      (input : GroupPlanningInput) (slot : RoleSlot) (snapshot : AgentPublicSnapshot)
      (a : CandidateAssignment) (task_id : String) (requirement : Fields)
      (battery endurance : Float)
      → as_dict (get_or input.task "requirement" (dict empty)) ≡ ok requirement
      → minimum requirement "min_battery" ≡ ok battery
      → minimum requirement "min_endurance_s" ≡ ok endurance
      → space_constraints_satisfied (get_or requirement "space_constraints" (list nil)) snapshot
        ≡ ok true
      → all (has_capability snapshot) slot.required_capability_ids ≡ true
      → member (slot_verb slot) snapshot.action_verbs ≡ true
      → (snapshot.busy && other_task snapshot.busy_task_id task_id) ≡ false
      → float_lt snapshot.battery battery ≡ false
      → float_lt snapshot.endurance_s endurance ≡ false
      → owner_violations input task_id a (some slot) snapshot ≡ ok []
  unfolding owner_violations slot_violations
  owner_violations-nil input slot snapshot a task_id requirement battery endurance h₀ h₁ h₂ h₃
        capable verb idle b e =
      rw (h₀, h₁, h₂, h₃, capable, verb, idle, b, e) refl

  -- A device that is idle for the task is not busy with another.
  idle_for-other_task :
      (task : Fields) (snapshot : AgentPublicSnapshot) (task_id : String)
      → get task "task_id" ≡ some (str task_id)
      → idle_for task snapshot ≡ true
      → (snapshot.busy && other_task snapshot.busy_task_id task_id) ≡ false
  unfolding py_eq
  idle_for-other_task task snapshot task_id has_id idle =
      let id : get_or task "task_id" null ≡ str task_id = rw (get_or, has_id) refl in
      by_task snapshot.busy_task_id
        (subst (λ v. (not snapshot.busy || same_task snapshot.busy_task_id v) ≡ true) id idle)
    where
      by_task :
          (busy_with : Option String)
          → (not snapshot.busy || same_task busy_with (str task_id)) ≡ true
          → (snapshot.busy && other_task busy_with task_id) ≡ false
      by_task none h = ground arith
      by_task (some t) h = ground arith

  returned : {x y : Fields} → ok x ≡ ok y → x ≡ y
  returned h = cc

  -- Where `x - y` is negative exactly when `x < y`, as it is for doubles, and the requirement of the
  -- task is a dict or is not given: when the engine accepts a slot, the validator's checks of the
  -- owner's state (online, verb, capabilities, busy, battery, endurance, space) for the same task,
  -- slot and snapshot find nothing.
  pub evaluate_slot-state_violations :
      (engine : EligibilityBidEngine) (input : GroupPlanningInput) (slot : RoleSlot)
      (snapshot : AgentPublicSnapshot) (availabilities : List ExecutionAvailability) (now : Float)
      (o : BidOffer) (a : CandidateAssignment) (task_id : String) (given : Fields)
      → ((x y : Float) → float_lt (fp.minus x y) zero_float ≡ float_lt x y)
      → get input.task "task_id" ≡ some (str task_id)
      → get_or input.task "requirement" (dict empty) ≡ dict given
      → evaluate_slot engine input.task slot snapshot availabilities now ≡ ok o
      → o.decision ≡ "accept"
      → state_violations input task_id a (some slot) (some snapshot) ≡ ok []
  unfolding to_dict evaluate_slot metrics_of eligible state_violations owner_violations
      slot_violations
  evaluate_slot-state_violations engine input slot snapshot availabilities now o a task_id given
        ordered has_id is_dict h accept =
      let (requirement, h₀, k₀) =
        >>=-eq-ok (to_dict (get_or input.task "requirement" (dict empty))) _ h in
      let read : given ≡ requirement = returned (sym (ap to_dict is_dict) ∙ h₀) in
      let taken : as_dict (get_or input.task "requirement" (dict empty)) ≡ ok requirement =
        ap as_dict is_dict ∙ ap ok read in
      let (battery, h₁, k₁) = >>=-eq-ok (minimum requirement "min_battery") _ k₀ in
      let (endurance, h₂, k₂) = >>=-eq-ok (minimum requirement "min_endurance_s") _ k₁ in
      let (fits, h₃, k₃) =
        >>=-eq-ok
          (space_constraints_satisfied (get_or requirement "space_constraints" (list nil)) snapshot)
          _ k₂ in
      let (distance, h₄, k₄) =
        >>=-eq-ok (distance_to_task snapshot.position (get_or input.task "area" null)) _ k₃ in
      let m =
        metrics_of engine input.task slot snapshot availabilities now (battery, endurance) fits
          distance in
      let same : offer_of engine slot snapshot now m ≡ o = cc in
      let accepted : eligible m ≡ true = accepted_only (eligible m) (rw (← same) at accept) in
      let here : fits ≡ true = ground arith in
      let up : (snapshot.online && is_fresh engine now snapshot) ≡ true = ground arith in
      let available : m.execution_available ≡ true = ground arith in
      let owner =
        owner_violations-nil input slot snapshot a task_id requirement battery endurance taken h₁ h₂
          (rw here at h₃) (ground arith) (ground arith)
          (idle_for-other_task input.task snapshot task_id has_id (ground arith))
          (sym (ordered snapshot.battery battery)
            ∙ margin_kept (fp.minus snapshot.battery battery) (ground arith))
          (sym (ordered snapshot.endurance_s endurance)
            ∙ margin_kept (fp.minus snapshot.endurance_s endurance) (ground arith)) in
      ground arith
