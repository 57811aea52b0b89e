-- ===== src/Policy/Matching/Correct.antt =====
-- coordination/policy.py: the plan of `deterministic_maximum_matching`, against the slots, the bids and
-- the validator's shape checks.
use mathlib.Core.Option
use blackboard_coordination.Base.{
  suc, ◌≤◌, String, ◌≡◌, refl, ap, true, false, Option, none, some, List, [], ◌∷◌, map, any, All,
  length, arith, inl, inr, Option-cases,
}
use blackboard_coordination.Base.Dict.{lookup}
use blackboard_coordination.Python.Result.{ok}
use blackboard_coordination.Python.Result.Laws.{>>=-eq-ok}
use blackboard_coordination.Python.Value.{Builtins, Value, index}
use blackboard_coordination.Policy.Data.{
  RoleSlot, CandidateAssignment, CandidateAssignmentPlan, GroupPlanningInput,
}
use blackboard_coordination.Policy.Violations.{count, slot_ids, shape_violations}
use blackboard_coordination.Policy.Violations.Counts.{shape_violations-nil}
use blackboard_coordination.Policy.Matching.{
  Search, Edges, Answer, edge_map, sort_slots, all_edges, candidate, plan_matched, search_of,
  no_owners, deterministic_maximum_matching,
}
use blackboard_coordination.Policy.Matching.Owners.{devices_of}
use blackboard_coordination.Policy.Matching.Sound.{Good, match_slots-Matched}
use blackboard_coordination.Policy.Matching.Plan.{
  backs, edges-FromBids, count-sort_slots, Fits, a_device, count-devices, count-devices_none,
  Assigned, assignments_of-Assigned, lookup_nil,
}

module _ ⦃py : Builtins⦄ (input : GroupPlanningInput) where
  abbrev pub slots_of : List RoleSlot
  slots_of = sort_slots input.role_slots

  abbrev pub edges_of : Edges
  edges_of = edge_map input.bids [] slots_of

  start-Good : Good edges_of no_owners
  start-Good = record { distinct_keys = tt; backed = λ d u h. absurd (lookup_nil d u h) }

  -- What the search leaves when it succeeds.
  pub found-Assigned :
      (s : Search) → search_of input ≡ some (true, s) → Assigned edges_of s slots_of
  unfolding devices_of
  found-Assigned s h =
      let m =
        match_slots-Matched edges_of (suc (length (all_edges edges_of))) slots_of no_owners s h in
      assignments_of-Assigned edges_of s slots_of (m.all_good start-Good)
        (λ u c. omega (arith, m.each u))

  abbrev Once : Type 0
  Once = (u : String) → count u (slot_ids input.role_slots) ≤ 1

  devices_once :
      (s : Search) (a : Assigned edges_of s slots_of) (d : String)
      → Once
      → count d (map a_device a.assignments) ≤ 1
  devices_once s a d once = elim (Option-cases (lookup d s.owners)) [
    | inl free ↦ omega (arith, count-devices_none edges_of s d a.assignments a.fit free)
    | inr (u, taken) ↦ omega (
      arith,
      count-devices edges_of s d u a.assignments a.fit taken,
      ap (count u) a.of_slots,
      count-sort_slots u input.role_slots,
      once u,
    )
  ]

  All-backed :
      (s : Search) (cs : List CandidateAssignment)
      → All (Fits edges_of s) cs
      → All
          (λ (c : CandidateAssignment).
            any (backs c.slot_id (c.device_id, c.supporting_bid_event_id)) input.bids ≡ true)
          cs
  All-backed s [] f = tt
  All-backed s (c ∷ cs) (fits, f) = (
    edges-FromBids input.bids slots_of c.slot_id (c.device_id, c.supporting_bid_event_id) fits.1,
    All-backed s cs f,
  )

  plan_assignments :
      (s : Search) (p : CandidateAssignmentPlan) (a : Assigned edges_of s slots_of)
      → plan_matched input (true, s) ≡ ok (some p)
      → a.assignments ≡ p.assignments
  unfolding plan_matched candidate
  plan_assignments s p a h =
      let (v, at, made) = >>=-eq-ok (index input.task "task_id") _ (rw a.returned at h) in
      ground arith

  not_matched :
      (s : Search) (p : CandidateAssignmentPlan) → ¬ (plan_matched input (false, s) ≡ ok (some p))
  unfolding plan_matched
  not_matched s p h = cc

  correct :
      (s : Search) (p : CandidateAssignmentPlan)
      → Once
      → Assigned edges_of s slots_of
      → plan_matched input (true, s) ≡ ok (some p)
      → (shape_violations p input.role_slots ≡ [])
        × All
            (λ (c : CandidateAssignment).
              any (backs c.slot_id (c.device_id, c.supporting_bid_event_id)) input.bids ≡ true)
            p.assignments
  correct s p once a h =
      let same = plan_assignments s p a h in
      (
        shape_violations-nil p input.role_slots
            (λ u.
              rw (← same)
                (omega (arith, ap (count u) a.of_slots, count-sort_slots u input.role_slots)))
            once (λ d. rw (← same) (devices_once s a d once)),
        rw (← same) (All-backed s a.assignments a.fit),
      )

  -- When the slots have different ids, a plan that the matching returns passes every shape check
  -- of the validator (each slot has one owner, no slot is unknown, no device has two slots), and
  -- behind every assignment stands a bid of its device with an accepted and eligible offer for the
  -- slot.
  pub deterministic_maximum_matching_correct :
      (p : CandidateAssignmentPlan)
      → ((u : String) → count u (slot_ids input.role_slots) ≤ 1)
      → deterministic_maximum_matching input ≡ some (ok (some p))
      → (shape_violations p input.role_slots ≡ [])
        × All
            (λ (c : CandidateAssignment).
              any (backs c.slot_id (c.device_id, c.supporting_bid_event_id)) input.bids ≡ true)
            p.assignments
  unfolding deterministic_maximum_matching
  deterministic_maximum_matching_correct p once h = by_answer (search_of input) refl h
    where
      by_answer :
          (a : Answer)
          → search_of input ≡ a
          → Option.map (plan_matched input) a ≡ some (ok (some p))
          → (shape_violations p input.role_slots ≡ [])
            × All
                (λ (c : CandidateAssignment).
                  any (backs c.slot_id (c.device_id, c.supporting_bid_event_id)) input.bids ≡ true)
                p.assignments
      by_answer none q r = cc
      by_answer (some (false, s)) q r = absurd (not_matched s p (cc r))
      by_answer (some (true, s)) q r = correct s p once (found-Assigned s q) (cc r)
