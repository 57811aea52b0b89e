-- ===== src/Policy/Matching.antt =====
-- coordination/policy.py: `deterministic_maximum_matching` and `DeterministicGroupPlanningPolicy`.
pub mod Fuel
pub mod Owners
pub mod Sound
pub mod Total
pub mod Plan
pub mod Correct
use Prim.Native.String.{compare}
use text.Mathlib.Text.{is_lt}
use mathlib.Core.Option
use blackboard_coordination.Base.{
  ℕ, suc, zero, String, Bool, true, false, not, ◌&&◌, ◌||◌, Option, none, some, List, [], ◌∷◌, ◌++◌,
  ◌==◌, map, member, length, if◌then◌else◌,
}
use blackboard_coordination.Base.Dict.{Assoc, lookup, insert}
use blackboard_coordination.Python.Result.{Result, ok, raised, key_error, ◌>>=◌}
use blackboard_coordination.Python.Value.{Builtins, index, to_str}
use blackboard_coordination.Policy.Data.{
  RoleSlot, BidRecord, BidOffer, CandidateAssignment, CandidateAssignmentPlan, GroupPlanningInput,
  eligible,
}
use blackboard_coordination.Policy.Space.{offer_for_slot}

-- A device that accepts a slot, and the bid that says so.
abbrev pub Edge : Type 0
Edge = String × String

abbrev pub same_edge : Edge → Edge → Bool
same_edge (d, b) (e, c) = d == e && b == c

abbrev pub has_edge : Edge → List Edge → Bool
has_edge e [] = false
has_edge e (x ∷ xs) = same_edge e x || has_edge e xs

abbrev edge_lt : Edge → Edge → Bool
edge_lt (d, b) (e, c) = is_lt (compare d e) || (d == e && is_lt (compare b c))

abbrev pub accepts : Option BidOffer → Bool
accepts none = false
accepts (some o) = o.decision == "accept" && eligible o.metrics

-- The bids on a slot, in the order of the records.
unfoldable pub accepted : String → List BidRecord → List Edge
accepted slot_id [] = []
accepted slot_id (r ∷ rs) =
    let rest = accepted slot_id rs in
    if accepts (offer_for_slot r slot_id) then (r.payload.device_id, r.event_id) ∷ rest else rest

insert_edge : Edge → List Edge → List Edge
insert_edge e [] = e ∷ []
insert_edge e (x ∷ xs) = if edge_lt x e then x ∷ insert_edge e xs else e ∷ x ∷ xs

-- `sorted(set(values), key=...)`
unfoldable pub sort_edges : List Edge → List Edge
unfolding insert_edge
sort_edges [] = []
sort_edges (e ∷ es) = let rest = sort_edges es in if has_edge e es then rest else insert_edge e rest

abbrev pub Edges : Type 0
Edges = Assoc (List Edge)

-- `edges`
unfoldable pub edge_map : List BidRecord → Edges → List RoleSlot → Edges
edge_map bids m [] = m
edge_map bids m (s ∷ ss) =
    edge_map bids (insert s.slot_id (sort_edges (accepted s.slot_id bids)) m) ss

abbrev pub or_no_edges : Option (List Edge) → List Edge
or_no_edges none = []
or_no_edges (some es) = es

-- `edges.get(slot_id, [])`
abbrev pub edges_at : Edges → String → List Edge
edges_at edges slot_id = or_no_edges (lookup slot_id edges)

-- The variables of the search: `device_to_slot`, `chosen_bid` and `visited`.
pub record Search : Type 0 where
  pub owners : Assoc String
  pub chosen : List ((String × String) × String)
  pub visited : List String

-- `chosen_bid.get((slot_id, device_id))`
unfoldable pub chosen_at : String → String → List ((String × String) × String) → Option String
chosen_at slot_id device_id [] = none
chosen_at slot_id device_id (((s, d), b) ∷ rest) =
    if s == slot_id && d == device_id then some b else chosen_at slot_id device_id rest

-- The two assignments before `return True`.
abbrev pub assign : String → Edge → Search → Search
assign slot_id (device_id, bid) s = record s {
  owners = insert device_id slot_id s.owners;
  chosen = ((slot_id, device_id), bid) ∷ s.chosen;
}

-- `visited.add(device_id)`
abbrev pub visit : String → Search → Search
visit device_id s = record s { visited = device_id ∷ s.visited }

-- What a call answers with the variables that it leaves; `none`: the fuel ran out.
abbrev pub Answer : Type 0
Answer = Option (Bool × Search)

-- After `augment(previous_slot, visited)`: the device is taken over, or the loop goes on.
unfoldable pub take_over : String → Edge → (Search → Answer) → Answer → Answer
take_over slot_id e later none = none
take_over slot_id e later (some (true, s)) = some (true, assign slot_id e s)
take_over slot_id e later (some (false, s)) = later s

-- The loop of `augment`, where `augment` is the call on an earlier owner.
unfoldable pub try_edges : (String → Search → Answer) → String → List Edge → Search → Answer
try_edges augment slot_id [] s = some (false, s)
try_edges augment slot_id ((device_id, bid) ∷ es) s =
    let later = try_edges augment slot_id es in
    elim (member device_id s.visited) [
      | true ↦ later s
      | false ↦ elim (lookup device_id s.owners) [
        | none ↦ some (true, assign slot_id (device_id, bid) (visit device_id s))
        | some previous ↦
            take_over slot_id (device_id, bid) later (augment previous (visit device_id s))
      ]
    ]

unfoldable pub augment : ℕ → Edges → String → Search → Answer
augment zero edges slot_id s = none
augment (suc fuel) edges slot_id s =
    try_edges (augment fuel edges) slot_id (edges_at edges slot_id) s

-- `for slot in role_slots: if not augment(slot.slot_id, set()): return None`
unfoldable pub match_slots : ℕ → Edges → List RoleSlot → Search → Answer
match_slots fuel edges [] s = some (true, s)
match_slots fuel edges (slot ∷ slots) s =
    let later = match_slots fuel edges slots in
    elim (augment fuel edges slot.slot_id (record s { visited = [] })) [
      | none ↦ none
      | some (true, t) ↦ later t
      | some (false, t) ↦ some (false, t)
    ]

-- `{slot_id: device_id for device_id, slot_id in device_to_slot.items()}`
unfoldable pub invert : Assoc String → Assoc String → Assoc String
invert m [] = m
invert m ((device_id, slot_id) ∷ rest) = invert (insert slot_id device_id m) rest

abbrev pub or_key_error {ℓ} : {A : Type ℓ} → Option A → Result A
or_key_error none = raised key_error
or_key_error (some a) = ok a

-- The assignments, with the `KeyError` of a slot that has no device.
unfoldable pub assignments_of : Search → List RoleSlot → Result (List CandidateAssignment)
assignments_of s [] = ok []
assignments_of s (slot ∷ slots) = do
  device_id ← or_key_error (lookup slot.slot_id (invert [] s.owners))
  bid ← or_key_error (chosen_at slot.slot_id device_id s.chosen)
  rest ← assignments_of s slots
  ok (
      record { slot_id = slot.slot_id; device_id = device_id; supporting_bid_event_id = bid }
      ∷ rest)

insert_slot : RoleSlot → List RoleSlot → List RoleSlot
insert_slot a [] = a ∷ []
insert_slot a (b ∷ bs) =
    if is_lt (compare b.slot_id a.slot_id) then b ∷ insert_slot a bs else a ∷ b ∷ bs

-- `sorted(planning_input.role_slots, key=lambda item: item.slot_id)`
unfoldable pub sort_slots : List RoleSlot → List RoleSlot
unfolding insert_slot
sort_slots [] = []
sort_slots (a ∷ rest) = insert_slot a (sort_slots rest)

-- Every edge of the map.
unfoldable pub all_edges : Edges → List Edge
all_edges [] = []
all_edges ((slot_id, es) ∷ rest) = es ++ all_edges rest

abbrev pub no_owners : Search
no_owners = record { owners = []; chosen = []; visited = [] }

module _ ⦃py : Builtins⦄ where
  pub candidate :
      GroupPlanningInput → String → List CandidateAssignment → String → CandidateAssignmentPlan
  candidate input task_id assignments summary = record {
    task_id = task_id;
    task_revision = input.task_revision;
    coordination_epoch = input.coordination_epoch;
    assignments = assignments;
    rationale_summary = summary;
    input_fingerprint = input.input_fingerprint;
  }

  -- What follows the search: the plan, or `None`.
  pub plan_matched : GroupPlanningInput → Bool × Search → Result (Option CandidateAssignmentPlan)
  unfolding candidate
  plan_matched input (false, s) = ok none
  plan_matched input (true, s) = do
    assignments ← assignments_of s (sort_slots input.role_slots)
    task_id ← index input.task "task_id"
    ok (
        some
          (candidate input (to_str task_id) assignments "deterministic maximum matching fallback"))

  -- The search, with a call for each edge at most in a chain of calls.
  abbrev pub search_of : GroupPlanningInput → Answer
  search_of input =
      let slots = sort_slots input.role_slots in
      let edges = edge_map input.bids [] slots in
      match_slots (suc (length (all_edges edges))) edges slots no_owners

  -- `deterministic_maximum_matching`; the outer `none`: the fuel ran out.
  unfoldable pub deterministic_maximum_matching :
      GroupPlanningInput → Option (Result (Option CandidateAssignmentPlan))
  unfolding plan_matched
  deterministic_maximum_matching input = Option.map (plan_matched input) (search_of input)

  pub or_infeasible :
      GroupPlanningInput → Option CandidateAssignmentPlan → Result CandidateAssignmentPlan
  unfolding candidate
  or_infeasible input (some plan) = ok plan
  or_infeasible input none = do
    task_id ← index input.task "task_id"
    ok (candidate input (to_str task_id) [] "NO_FEASIBLE_TEAM")

  -- `DeterministicGroupPlanningPolicy.plan`
  unfoldable pub plan : GroupPlanningInput → Option (Result CandidateAssignmentPlan)
  unfolding or_infeasible
  plan input =
      Option.map (λ (r : Result (Option CandidateAssignmentPlan)). r >>= or_infeasible input)
        (deterministic_maximum_matching input)
