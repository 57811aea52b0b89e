-- ===== src/Policy/Validate/Made.antt =====
-- coordination/policy.py: the assignments that the loop of `MinimalPlanValidator.validate` builds, against
-- the slots and the candidate.
use mathlib.Core.Path.{subst}
use blackboard_coordination.Base.{
  String, ◌≡◌, refl, ap, ◌∙◌, true, false, Option, none, some, List, [], ◌∷◌, map, member, All,
  arith, eq_iff, ◌⊎◌, inl, inr, Bool-cases, ◌==◌,
}
use blackboard_coordination.Base.Int.{ℤ}
use blackboard_coordination.Base.Dict.{Assoc, lookup, insert, lookup-insert}
use blackboard_coordination.Python.Result.{ok, ◌>>=◌}
use blackboard_coordination.Python.Result.Laws.{>>=-eq-ok}
use blackboard_coordination.Python.Value.{Builtins, null, str, get_or, py_eq}
use blackboard_coordination.Policy.Data.{
  RoleSlot, AssignmentSnapshot, CandidateAssignment, GroupPlanningInput, Violation,
}
use blackboard_coordination.Policy.Violations.{count, slot_map, slot_verb}
use blackboard_coordination.Policy.Validate.{
  insert_assignment, by_slot, Built, built, stopped, build_one, build, snapshot_of, prepend,
}
use blackboard_coordination.View.Match.{text_field}

-- The slot is one of the list.
abbrev pub Among : RoleSlot → List RoleSlot → Type 0
Among s [] = ⊥
Among s (t ∷ ts) = (s ≡ t) ⊎ Among s ts

-- An entry of the map of slots stands under its own id, and was in the map before or is a slot.
slot_map-Among :
    (m : Assoc RoleSlot) (slots : List RoleSlot) (u : String) (s : RoleSlot)
    → lookup u (slot_map m slots) ≡ some s
    → (Among s slots × (s.slot_id ≡ u)) ⊎ (lookup u m ≡ some s)
unfolding slot_map
slot_map-Among m [] u s h = inr h
slot_map-Among m (t ∷ ts) u s h = elim (slot_map-Among (insert t.slot_id t m) ts u s h) [
  | inl (later, named) ↦ inl (inr later, named)
  | inr found ↦ elim (Bool-cases (t.slot_id == u)) [
    | inl same ↦
        let here : s ≡ t = ground (arith, lookup-insert t.slot_id u t m) in
        inl (inl here, ap (λ (x : RoleSlot). x.slot_id) here ∙ (eq_iff t.slot_id u).0 same)
    | inr other ↦ inr (ground (arith, lookup-insert t.slot_id u t m))
  ]
]

slots-Among :
    (slots : List RoleSlot) (u : String) (s : RoleSlot)
    → lookup u (slot_map [] slots) ≡ some s
    → Among s slots × (s.slot_id ≡ u)
unfolding lookup
slots-Among slots u s h = elim (slot_map-Among [] slots u s h) [
  | inl found ↦ found
  | inr nowhere ↦ cc
]

module _ ⦃py : Builtins⦄ where
  -- A slot of the task stands behind the assignment: the verb of the slot's action is one of the
  -- slot's allowed actions, its completion rule is of the one kind that is supported, and the
  -- assignment has the slot's id, action, allowed actions and completion rule.
  pub record IsPermitted (slots : List RoleSlot) (a : AssignmentSnapshot) : Type 0 where
    pub slot : RoleSlot
    pub among : Among slot slots
    pub named : slot.slot_id ≡ a.slot_id
    pub verb : member (text_field slot.action_template "verb") slot.allowed_actions ≡ true
    pub rule : py_eq (get_or slot.completion_rule "kind" null) (str "receipt_success") ≡ true
    pub action : a.action_template ≡ slot.action_template
    pub actions : a.allowed_actions ≡ slot.allowed_actions
    pub completion : a.completion_rule ≡ slot.completion_rule

  -- The snapshot that one round makes of an assignment.
  pub record Made (slots : List RoleSlot) (epoch : ℤ) (c : CandidateAssignment)
      (a : AssignmentSnapshot) : Type 0 where
    pub slot : a.slot_id ≡ c.slot_id
    pub device : a.device_id ≡ c.device_id
    pub bid : a.supporting_bid_event_id ≡ c.supporting_bid_event_id
    pub epoch_of : a.assignment_epoch ≡ epoch
    pub permitted : IsPermitted slots a

  build_one-Made :
      (slots : List RoleSlot) (task_id : String) (epoch : ℤ) (c : CandidateAssignment)
      (o : Option RoleSlot) (a : AssignmentSnapshot)
      → ((s : RoleSlot) → o ≡ some s → Among s slots × (s.slot_id ≡ c.slot_id))
      → build_one task_id epoch c o ≡ ok (inr a)
      → Made slots epoch c a
  unfolding build_one
  build_one-Made slots task_id epoch c none a k h = cc
  build_one-Made slots task_id epoch c (some slot) a k h =
      by_verb (Bool-cases (member (slot_verb slot) slot.allowed_actions))
        (Bool-cases (py_eq (get_or slot.completion_rule "kind" null) (str "receipt_success")))
    where
      by_verb :
          (member (slot_verb slot) slot.allowed_actions ≡ true)
            ⊎ (member (slot_verb slot) slot.allowed_actions ≡ false)
          → (py_eq (get_or slot.completion_rule "kind" null) (str "receipt_success") ≡ true)
            ⊎ (py_eq (get_or slot.completion_rule "kind" null) (str "receipt_success") ≡ false)
          → Made slots epoch c a
      by_verb (inr no_verb) _ = cc (rw (no_verb, build_one) at h)
      by_verb (inl verb) (inr no_rule) = cc (rw (verb, no_rule, build_one) at h)
      by_verb (inl verb) (inl rule) =
          subst (Made slots epoch c) (cc (rw (verb, rule, build_one) at h)) (
            let made : Made slots epoch c (snapshot_of task_id epoch slot c) = record {
              slot = (k slot refl).1;
              device = refl;
              bid = refl;
              epoch_of = refl;
              permitted = record {
                slot = slot;
                among = (k slot refl).0;
                named = refl;
                verb = verb;
                rule = rule;
                action = refl;
                actions = refl;
                completion = refl;
              };
            } in
            made)

  abbrev pub AllMade :
      List RoleSlot → ℤ → List CandidateAssignment → List AssignmentSnapshot → Type 0
  AllMade slots epoch [] [] = Unit {0}
  AllMade slots epoch (c ∷ cs) (a ∷ rest) = Made slots epoch c a × AllMade slots epoch cs rest
  AllMade slots epoch _ _ = ⊥

  pub build-AllMade :
      (input : GroupPlanningInput) (task_id : String) (cs : List CandidateAssignment)
      (made : List AssignmentSnapshot)
      → build input task_id cs ≡ ok (built made)
      → AllMade input.role_slots input.coordination_epoch cs made
  unfolding build
  build-AllMade input task_id [] [] h = tt
  build-AllMade input task_id [] (a ∷ rest) h = cc
  build-AllMade input task_id (c ∷ cs) made h =
      let (round, one, h₁) =
        >>=-eq-ok
          (build_one task_id input.coordination_epoch c
            (lookup c.slot_id (slot_map [] input.role_slots)))
          _ h in
      by_round round one h₁ (build-AllMade input task_id cs)
    where
      Later : Type 0
      Later =
          (made : List AssignmentSnapshot)
          → build input task_id cs ≡ ok (built made)
          → AllMade input.role_slots input.coordination_epoch cs made

      by_others :
          (a : AssignmentSnapshot) (others : Built)
          → Made input.role_slots input.coordination_epoch c a
          → build input task_id cs ≡ ok others
          → ok (prepend a others) ≡ ok (built made)
          → Later
          → AllMade input.role_slots input.coordination_epoch (c ∷ cs) made
      by_others a (stopped v) m p q later = cc
      by_others a (built rest) m p q later =
          let same : a ∷ rest ≡ made = cc in
          subst (AllMade input.role_slots input.coordination_epoch (c ∷ cs)) same (m, later rest p)

      by_round :
          (round : Violation ⊎ AssignmentSnapshot)
          → build_one task_id input.coordination_epoch c
              (lookup c.slot_id (slot_map [] input.role_slots))
            ≡ ok round
          → elim round [
            | inl v ↦ ok (stopped v)
            | inr s ↦ build input task_id cs >>= λ others. ok (prepend s others)
          ]
            ≡ ok (built made)
          → Later
          → AllMade input.role_slots input.coordination_epoch (c ∷ cs) made
      by_round (inl v) p q later = cc
      by_round (inr a) p q later =
          let (others, r, s) = >>=-eq-ok (build input task_id cs) _ q in
          by_others a others
            (build_one-Made input.role_slots task_id input.coordination_epoch c
              (lookup c.slot_id (slot_map [] input.role_slots)) a
              (slots-Among input.role_slots c.slot_id) p)
            r s later

  abbrev pub snapshot_slots : List AssignmentSnapshot → List String
  snapshot_slots made = map (λ (a : AssignmentSnapshot). a.slot_id) made

  abbrev pub snapshot_devices : List AssignmentSnapshot → List String
  snapshot_devices made = map (λ (a : AssignmentSnapshot). a.device_id) made

  abbrev pub assigned_slots : List CandidateAssignment → List String
  assigned_slots cs = map (λ (c : CandidateAssignment). c.slot_id) cs

  abbrev pub assigned_devices : List CandidateAssignment → List String
  assigned_devices cs = map (λ (c : CandidateAssignment). c.device_id) cs

  pub snapshot_slots-eq :
      (slots : List RoleSlot) (epoch : ℤ) (cs : List CandidateAssignment)
      (made : List AssignmentSnapshot)
      → AllMade slots epoch cs made
      → (snapshot_slots made ≡ assigned_slots cs) × (snapshot_devices made ≡ assigned_devices cs)
  snapshot_slots-eq slots epoch [] [] m = (refl, refl)
  snapshot_slots-eq slots epoch [] (a ∷ rest) m = absurd m
  snapshot_slots-eq slots epoch (c ∷ cs) [] m = absurd m
  snapshot_slots-eq slots epoch (c ∷ cs) (a ∷ rest) (m, ms) =
      let (named, devices) = snapshot_slots-eq slots epoch cs rest ms in
      (ground (arith, m.slot, named), ground (arith, m.device, devices))

  pub All-IsPermitted :
      (slots : List RoleSlot) (epoch : ℤ) (cs : List CandidateAssignment)
      (made : List AssignmentSnapshot)
      → AllMade slots epoch cs made
      → All (λ a. IsPermitted slots a × (a.assignment_epoch ≡ epoch)) made
  All-IsPermitted slots epoch [] [] m = tt
  All-IsPermitted slots epoch [] (a ∷ rest) m = absurd m
  All-IsPermitted slots epoch (c ∷ cs) [] m = absurd m
  All-IsPermitted slots epoch (c ∷ cs) (a ∷ rest) (m, ms) =
      ((m.permitted, m.epoch_of), All-IsPermitted slots epoch cs rest ms)

  count-insert_assignment :
      (u : String) (c : CandidateAssignment) (cs : List CandidateAssignment)
      → (count u (assigned_slots (insert_assignment c cs)) ≡ count u (assigned_slots (c ∷ cs)))
        × (count u (assigned_devices (insert_assignment c cs))
            ≡ count u (assigned_devices (c ∷ cs)))
  unfolding insert_assignment count
  count-insert_assignment u c [] = (refl, refl)
  count-insert_assignment u c (d ∷ cs) = ground (arith, count-insert_assignment u c cs)

  pub count-by_slot :
      (u : String) (cs : List CandidateAssignment)
      → (count u (assigned_slots (by_slot cs)) ≡ count u (assigned_slots cs))
        × (count u (assigned_devices (by_slot cs)) ≡ count u (assigned_devices cs))
  unfolding by_slot count
  count-by_slot u [] = (refl, refl)
  count-by_slot u (c ∷ cs) =
      ground (arith, count-by_slot u cs, count-insert_assignment u c (by_slot cs))
