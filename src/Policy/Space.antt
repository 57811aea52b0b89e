-- ===== src/Policy/Space.antt =====
-- coordination/policy.py: the helpers at the end of the file.
use blackboard_coordination.Base.{
  String, Bool, true, false, not, Option, none, some, List, [], ◌∷◌, ◌==◌, member, find_first,
  if◌then◌else◌,
}
use blackboard_coordination.Python.Result.{Result, ok, ◌>>=◌}
use blackboard_coordination.Python.Value.{
  Builtins, Value, Float, Fields, null, list, nil, get, get_or, to_float, to_str, float_lt, truthy,
  dict, empty,
}
use blackboard_coordination.View.Match.{iterate, as_dict}
use blackboard_coordination.Policy.Data.{AgentPublicSnapshot, BidRecord, BidOffer}

-- `_offer_for_slot`
unfoldable pub offer_for_slot : BidRecord → String → Option BidOffer
offer_for_slot bid slot_id = find_first (λ (o : BidOffer). o.slot_id == slot_id) bid.payload.offers

module _ ⦃py : Builtins⦄ where
  abbrev to_texts : List Value → List String
  to_texts [] = []
  to_texts (v ∷ vs) = to_str v ∷ to_texts vs

  wide_for : Option Float → Value → Result Bool
  wide_for none gap = ok true
  wide_for (some width) gap = do g ← to_float gap; ok (float_lt g width)

  -- Whether `min_gap_cm` is too narrow for the device.
  too_wide : Fields → AgentPublicSnapshot → Result Bool
  unfolding wide_for
  too_wide constraint snapshot = elim (get constraint "min_gap_cm") [
    | none ↦ ok false
    | some null ↦ ok false
    | some gap ↦ wide_for snapshot.width_cm gap
  ]

  abbrev excludes : List String → String → Bool
  excludes [] device_type = false
  excludes (t ∷ ts) device_type = not (member device_type (t ∷ ts))

  constraint_holds : AgentPublicSnapshot → Value → Result Bool
  unfolding too_wide
  constraint_holds snapshot v = do
    constraint ← as_dict v
    wide ← too_wide constraint snapshot
    if wide then ok false else (do
      passable ← iterate (get_or constraint "passable_by" (list nil))
      ok (not (excludes (to_texts passable) snapshot.device_type)))

  constraints_hold : AgentPublicSnapshot → List Value → Result Bool
  unfolding constraint_holds
  constraints_hold snapshot [] = ok true
  constraints_hold snapshot (v ∷ vs) =
      let rest = constraints_hold snapshot vs in
      do b ← constraint_holds snapshot v; if b then rest else ok false

  -- `_space_constraints_satisfied`
  unfoldable pub space_constraints_satisfied : Value → AgentPublicSnapshot → Result Bool
  unfolding constraints_hold
  space_constraints_satisfied constraints snapshot = do
    values ← iterate constraints
    constraints_hold snapshot values

  ref_of : Value → List String
  ref_of (dict clue) =
      if truthy (get_or clue "event_id" null) then to_str (get_or clue "event_id" null) ∷ [] else []
  ref_of _ = []

  refs : Fields → List Value → List String
  unfolding ref_of
  refs clues [] = []
  refs clues (key ∷ keys) =
      let rest = refs clues keys in
      elim (get clues (to_str key)) [ none ↦ rest | some clue ↦ concat (ref_of clue) rest ]
    where
      concat : List String → List String → List String
      concat [] ys = ys
      concat (x ∷ xs) ys = x ∷ concat xs ys

  -- `_evidence_refs`, of a view whose keys are texts
  unfoldable pub evidence_refs : Option Fields → Result (List String)
  unfolding refs
  evidence_refs none = ok []
  evidence_refs (some view) = do
    clues ← as_dict (get_or view "clues_by_key" (dict empty))
    keys ← iterate (get_or view "valid_clue_keys" (list nil))
    ok (refs clues keys)
