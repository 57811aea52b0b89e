-- ===== src/Policy/Matching/Total.antt =====
-- coordination/policy.py: the answers of `DeterministicGroupPlanningPolicy.plan`.
use blackboard_coordination.Base.{
  suc, ◌≡◌, refl, ◌⊎◌, inl, inr, none, some, [], length, arith, Bool, true, false, String,
  Option-cases,
}
use blackboard_coordination.Python.Result.{ok, raised, key_error}
use blackboard_coordination.Python.Value.{Builtins, Value, Fields, get, index, to_str}
use blackboard_coordination.Policy.Data.{CandidateAssignmentPlan, GroupPlanningInput}
use blackboard_coordination.Policy.Matching.{
  Search, all_edges, no_owners, search_of, plan_matched, or_infeasible, candidate,
  deterministic_maximum_matching, plan,
}
use blackboard_coordination.Policy.Matching.Fuel.{match_slots_total}
use blackboard_coordination.Policy.Matching.Correct.{found-Assigned, edges_of, slots_of}

index-cases :
    (d : Fields) (key : String)
    → ((v : Value) × (index d key ≡ ok v)) ⊎ (index d key ≡ raised key_error)
index-cases d key = elim (Option-cases (get d key)) [
  | inl missing ↦ inr (rw (index, missing) refl)
  | inr (v, found) ↦ inl (v, rw (index, found) refl)
]

module _ ⦃py : Builtins⦄ (input : GroupPlanningInput) where
  -- A plan for the task: the one of the matching, or the empty one where there is no matching.
  pub record Planned (v : Value) (p : CandidateAssignmentPlan) : Type 0 where
    pub returned : plan input ≡ some (ok p)
    pub for_task : p.task_id ≡ to_str v
    pub chosen :
        (deterministic_maximum_matching input ≡ some (ok (some p)))
        ⊎ ((deterministic_maximum_matching input ≡ some (ok none)) × (p.assignments ≡ []))

  -- The search comes to an answer.
  searched : (b : Bool) × (s : Search) × (search_of input ≡ some (b, s))
  searched =
      match_slots_total (suc (length (all_edges (edges_of input)))) (edges_of input)
        (slots_of input) no_owners (omega arith)

  plan-Planned :
      (v : Value) (b : Bool) (s : Search)
      → index input.task "task_id" ≡ ok v
      → search_of input ≡ some (b, s)
      → (p : CandidateAssignmentPlan) × Planned v p
  unfolding plan deterministic_maximum_matching plan_matched or_infeasible candidate
  plan-Planned v false s at q = (
    candidate input (to_str v) [] "NO_FEASIBLE_TEAM",
    record { returned = rw (q, at) refl; for_task = refl; chosen = inr (rw q refl, refl) },
  )
  plan-Planned v true s at q =
      let a = found-Assigned input s q in
      (
        candidate input (to_str v) a.assignments "deterministic maximum matching fallback",
        record {
          returned = rw (q, a.returned, at) refl;
          for_task = refl;
          chosen = inl (rw (q, a.returned, at) refl);
        },
      )

  plan-key_error :
      (b : Bool) (s : Search)
      → index input.task "task_id" ≡ raised key_error
      → search_of input ≡ some (b, s)
      → plan input ≡ some (raised key_error)
  unfolding plan deterministic_maximum_matching plan_matched or_infeasible candidate
  plan-key_error false s at q = rw (q, at) refl
  plan-key_error true s at q = let a = found-Assigned input s q in rw (q, a.returned, at) refl

  -- The planning policy comes to an answer for every input, whatever the bids and the slots. Where
  -- the task has an id, the answer is a plan for that task: the plan of the matching, or a plan
  -- without assignments where the matching returns `None`. Where it has none, the answer is a
  -- `KeyError`.
  pub plan_total :
      ((v : Value) × (index input.task "task_id" ≡ ok v)
        × ((p : CandidateAssignmentPlan) × Planned v p))
      ⊎ ((index input.task "task_id" ≡ raised key_error) × (plan input ≡ some (raised key_error)))
  plan_total =
      let (b, s, q) = searched in
      elim (index-cases input.task "task_id") [
        | inl (v, at) ↦ inl (v, at, plan-Planned v b s at q)
        | inr at ↦ inr (at, plan-key_error b s at q)
      ]
