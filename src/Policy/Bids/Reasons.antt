-- ===== src/Policy/Bids/Reasons.antt =====
-- coordination/policy.py: the decision and the reasons of an offer of `EligibilityBidEngine`.
use mathlib.Core.Path.{subst}
use blackboard_coordination.Base.{
  suc, String, ◌≡◌, refl, ap, Bool, true, false, not, ◌&&◌, ◌||◌, Option, List, [], ◌∷◌, ◌++◌, ◌↔◌,
  map, member, arith, if◌then◌else◌, ◌∙◌, sym, eq_iff,
}
use blackboard_coordination.Base.Int.{ℤ, pos, ltb_ℤ, eq_ℤ, ◌*ℤ◌}
use blackboard_coordination.Python.Result.{ok}
use blackboard_coordination.Python.Result.Laws.{>>=-eq-ok}
use blackboard_coordination.Python.Value.{
  Builtins, Float, Fields, nan, infinite, finite, float_lt, float_le, zero_float,
}
use blackboard_coordination.Policy.Data.{
  RoleSlot, AgentPublicSnapshot, ExecutionAvailability, BidMetrics, BidOffer, BidPayload,
  CollaborationProposal, eligible,
}
use blackboard_coordination.Policy.Violations.{slot_ids}
use blackboard_coordination.Policy.Bids.{
  Arithmetic, EligibilityBidEngine, Round, reasons, reason, metrics_of, is_fresh, evaluate_slot,
  evaluate_slots, make_bid, slot_verb, index, get_or, dict, empty, minimum,
  space_constraints_satisfied, list, nil, distance_to_task, null, offer_of, to_dict,
}
use mathlib.Core.Path.{subst}

le_or_lt : (a b : ℤ) → (ltb_ℤ a b || eq_ℤ a b) ≡ not (ltb_ℤ b a)
le_or_lt a b = ground arith

unfoldable pub is_number : Float → Bool
is_number nan = false
is_number _ = true

-- A number is at least 0 exactly when it is not below 0.
margin : (x : Float) → is_number x ≡ true → float_le zero_float x ≡ not (float_lt x zero_float)
unfolding is_number
margin nan h = cc
margin (infinite true) h = refl
margin (infinite false) h = refl
margin (finite a b) h = le_or_lt (pos 0 *ℤ pos (suc b)) (a *ℤ pos 1)

pub margin_kept : (x : Float) → float_le zero_float x ≡ true → float_lt x zero_float ≡ false
margin_kept nan h = cc
margin_kept (infinite true) h = cc
margin_kept (infinite false) h = refl
margin_kept (finite a b) h = ground (arith, le_or_lt (pos 0 *ℤ pos (suc b)) (a *ℤ pos 1))

is_empty : List String → Bool
is_empty [] = true
is_empty (x ∷ xs) = false

is_empty-append : (xs ys : List String) → is_empty (xs ++ ys) ≡ (is_empty xs && is_empty ys)
unfolding is_empty
is_empty-append [] ys = refl
is_empty-append (x ∷ xs) ys = refl

is_empty-nil : (xs : List String) → is_empty xs ≡ true → xs ≡ []
unfolding is_empty
is_empty-nil [] h = refl
is_empty-nil (x ∷ xs) h = cc

nil_empty : (xs : List String) → xs ≡ [] → is_empty xs ≡ true
unfolding is_empty
nil_empty [] h = refl
nil_empty (x ∷ xs) h = cc

abbrev pub verdict : Bool → String
verdict b = if b then "accept" else "reject"

pub accepted_only : (b : Bool) → verdict b ≡ "accept" → b ≡ true
accepted_only true h = refl
accepted_only false h = (eq_iff "reject" "accept").1 h

is_empty-reason : (b : Bool) (code : String) → is_empty (reason b code) ≡ not b
unfolding is_empty
is_empty-reason true code = refl
is_empty-reason false code = refl

module _ ⦃py : Builtins⦄ ⦃fp : Arithmetic⦄ where
  reasons-eligible :
      (m : BidMetrics) (fresh online supported : Bool)
      → m.online ≡ (online && fresh)
      → is_number m.battery_margin ≡ true
      → is_number m.endurance_margin_s ≡ true
      → is_empty (reasons m fresh online supported) ≡ eligible m
  unfolding reasons eligible is_empty
  reasons-eligible m fresh online supported h battery endurance =
      simp
        (
          is_empty-append,
          is_empty-reason,
          margin m.battery_margin battery,
          margin m.endurance_margin_s endurance,
          h,
        )
        (ground arith)

  -- How the fields of an offer hang together.
  record Told (engine : EligibilityBidEngine) (slot : RoleSlot) (snapshot : AgentPublicSnapshot)
      (now : Float) (o : BidOffer) : Type 0 where
    for_slot : o.slot_id ≡ slot.slot_id
    decided : o.decision ≡ verdict (eligible o.metrics)
    told :
        o.reason_codes
        ≡ reasons o.metrics
            (is_fresh engine now snapshot)
            snapshot.online
            (member (slot_verb slot) snapshot.action_verbs)
    fresh : o.metrics.online ≡ (snapshot.online && is_fresh engine now snapshot)

  evaluate_slot-Told :
      (engine : EligibilityBidEngine) (task : Fields) (slot : RoleSlot)
      (snapshot : AgentPublicSnapshot) (availabilities : List ExecutionAvailability) (now : Float)
      (o : BidOffer)
      → evaluate_slot engine task slot snapshot availabilities now ≡ ok o
      → Told engine slot snapshot now o
  unfolding evaluate_slot metrics_of
  evaluate_slot-Told engine task slot snapshot availabilities now o h =
      let (requirement, h₀, k₀) =
        >>=-eq-ok (to_dict (get_or task "requirement" (dict empty))) _ h in
      let (battery, h₁, k₁) = >>=-eq-ok (minimum requirement "min_battery") _ k₀ in
      let (endurance, h₂, k₂) = >>=-eq-ok (minimum requirement "min_endurance_s") _ k₁ in
      let (fits, h₃, k₃) =
        >>=-eq-ok
          (space_constraints_satisfied (get_or requirement "space_constraints" (list nil)) snapshot)
          _ k₂ in
      let (distance, h₄, k₄) =
        >>=-eq-ok (distance_to_task snapshot.position (get_or task "area" null)) _ k₃ in
      let same : offer_of engine slot snapshot now (
            metrics_of engine task slot snapshot availabilities now (battery, endurance) fits
              distance)
          ≡ o =
        cc in
      subst (Told engine slot snapshot now) same (
        let t : Told engine slot snapshot now (
            offer_of engine slot snapshot now (
              metrics_of engine task slot snapshot availabilities now (battery, endurance) fits
                distance)) =
          record { for_slot = refl; decided = refl; told = refl; fresh = refl } in
        t)

  -- An offer that the engine makes is an acceptance exactly when it states no reason, where its two
  -- margins are numbers.
  pub evaluate_slot-decision :
      (engine : EligibilityBidEngine) (task : Fields) (slot : RoleSlot)
      (snapshot : AgentPublicSnapshot) (availabilities : List ExecutionAvailability) (now : Float)
      (o : BidOffer)
      → evaluate_slot engine task slot snapshot availabilities now ≡ ok o
      → is_number o.metrics.battery_margin ≡ true
      → is_number o.metrics.endurance_margin_s ≡ true
      → (o.decision ≡ "accept") ↔ (o.reason_codes ≡ [])
  evaluate_slot-decision engine task slot snapshot availabilities now o h battery endurance =
      let t = evaluate_slot-Told engine task slot snapshot availabilities now o h in
      by_reasons
        (rw (t.told) (
          reasons-eligible o.metrics (is_fresh engine now snapshot) snapshot.online
            (member (slot_verb slot) snapshot.action_verbs) t.fresh battery endurance))
        t.decided
    where
      by_reasons :
          is_empty o.reason_codes ≡ eligible o.metrics
          → o.decision ≡ verdict (eligible o.metrics)
          → (o.decision ≡ "accept") ↔ (o.reason_codes ≡ [])
      by_reasons e d = (
        λ a. is_empty-nil o.reason_codes (e ∙ accepted_only (eligible o.metrics) (sym d ∙ a)),
        λ n. d ∙ ap verdict (sym e ∙ nil_empty o.reason_codes n),
      )

  evaluate_slots-offers :
      (engine : EligibilityBidEngine) (task : Fields) (slots : List RoleSlot)
      (snapshot : AgentPublicSnapshot) (availabilities : List ExecutionAvailability) (now : Float)
      (os : List BidOffer)
      → evaluate_slots engine task slots snapshot availabilities now ≡ ok os
      → map (λ (o : BidOffer). o.slot_id) os ≡ slot_ids slots
  unfolding evaluate_slots
  evaluate_slots-offers engine task [] snapshot availabilities now os h =
      let same : [] ≡ os = cc in rw (← same) refl
  evaluate_slots-offers engine task (slot ∷ slots) snapshot availabilities now os h =
      let (o, made, k₀) =
        >>=-eq-ok (evaluate_slot engine task slot snapshot availabilities now) _ h in
      let (rest, later, k₁) =
        >>=-eq-ok (evaluate_slots engine task slots snapshot availabilities now) _ k₀ in
      let first =
        (evaluate_slot-Told engine task slot snapshot availabilities now o made).for_slot in
      let others = evaluate_slots-offers engine task slots snapshot availabilities now rest later in
      ground (arith, first, others)

  -- A bid has one offer for each slot that it was asked for, in their order.
  pub make_bid-offers :
      (engine : EligibilityBidEngine) (task : Fields) (slots : List RoleSlot)
      (snapshot : AgentPublicSnapshot) (availabilities : List ExecutionAvailability) (round : Round)
      (now : Float) (proposal : Option CollaborationProposal) (b : BidPayload)
      → make_bid engine task slots snapshot availabilities round now proposal ≡ ok b
      → map (λ (o : BidOffer). o.slot_id) b.offers ≡ slot_ids slots
  unfolding make_bid
  make_bid-offers engine task slots snapshot availabilities round now proposal b h =
      let (os, made, k₀) =
        >>=-eq-ok (evaluate_slots engine task slots snapshot availabilities now) _ h in
      let (v, has_id, k₁) = >>=-eq-ok (index task "task_id") _ k₀ in
      let offered = evaluate_slots-offers engine task slots snapshot availabilities now os made in
      ground (arith, offered)
