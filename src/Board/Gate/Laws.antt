-- ===== src/Board/Gate/Laws.antt =====
-- blackboard/board.py and blackboard/view.py: what the gate tests of an event, and the step of the fold
-- on that event.
use blackboard_coordination.Base.{
  ℕ, String, ◌≡◌, refl, ◌∙◌, sym, ap, Bool, true, false, not, ◌&&◌, ◌||◌, ◌==◌, Bool-cases, inl,
  inr, if◌then◌else◌, none, some, List, [], ◌∷◌, subset, arith,
}
use blackboard_coordination.Base.Int.{ℤ, pos, negsuc, eq_ℤ, eq_ℤ_iff, ◌+ℤ◌}
use blackboard_coordination.Python.Result.{Result, ok, pass, reject_if, ◌>>=◌}
use blackboard_coordination.Python.Result.Laws.{>>=-eq-ok, and_then-pass, reject_if-pass}
use blackboard_coordination.Python.Value.{
  Builtins, Value, Fields, get, get_or, index, to_int, int, null, str, to_str,
}
use blackboard_coordination.Contracts.{Event}
use blackboard_coordination.Validation.Common.{is_v2_content}
use blackboard_coordination.View.Match.{int_field, or_empty, is_filled}
use blackboard_coordination.View.Task.{
  TaskState, assigned, replanning, on_task_assigned, on_task_replan, on_terminal, on_task_terminal,
  done_is_due, text_set, in_texts, without, same_plan, commit_plan, with_cause, is_nil,
}
use blackboard_coordination.View.Fold.{TaskView, publish}
use blackboard_coordination.Board.Gate.{
  int_at, int_is, texts_at, other_plan, gate_assigned, gate_replan, gate_done, reject_when,
  none_left, plan_assignments, assignment_ids, py_eq, raised,
}
use mathlib.Core.Path.{subst}
use blackboard_coordination.Base.Dict.{subset-sort_texts}

module _ ⦃py : Builtins⦄ where
  index-field :
      (content : Fields) (name : String) (v : Value)
      → index content name ≡ ok v
      → get content name ≡ some v
  index-field content name v h = ground arith

  field_value :
      (content : Fields) (name : String) (v d : Value)
      → index content name ≡ ok v
      → get_or content name d ≡ v
  field_value content name v d h = ground (arith, index-field content name v h)

  pub int_at-field :
      (content : Fields) (name : String) (n d : ℤ)
      → int_at content name ≡ ok n
      → int_field content name d ≡ ok n
  unfolding int_field
  int_at-field content name n d h =
      let (v, p, q) = >>=-eq-ok (index content name) _ h in
      ap to_int (field_value content name v (int d) p) ∙ q

  -- `if int(content[name]) != n: return code` has passed.
  pub int_is-pass :
      (content : Fields) (name code : String) (n d : ℤ)
      → int_is content name n code ≡ pass
      → int_field content name d ≡ ok n
  int_is-pass content name code n d h =
      let (m, p, q) = >>=-eq-ok (int_at content name) _ h in
      int_at-field content name n d (p ∙ ap ok ((eq_ℤ_iff m n).0 (same m q)))
    where
      same : (m : ℤ) → reject_if (not (eq_ℤ m n)) code ≡ pass → eq_ℤ m n ≡ true
      same m q = ground (arith, reject_if-pass (not (eq_ℤ m n)) code q)

  and_right_false : (a b : Bool) → b ≡ false → (a && b) ≡ false
  and_right_false a b h = ground arith

  not-false : (b : Bool) → not b ≡ false → b ≡ true
  not-false b h = ground arith

  -- A cause that is pending is a text, and counts with the evidence.
  cause_counts :
      (cause : Value) (refs pending : List String)
      → in_texts cause pending ≡ true
      → subset refs pending ≡ true
      → (in_texts cause pending && subset (with_cause cause refs) pending) ≡ true
  unfolding to_str
  cause_counts (str t) refs pending h k = ground arith
  cause_counts null refs pending h k = cc
  cause_counts _ refs pending h k = cc

  other_plan-pass :
      (content plan : Fields) (code : String)
      → reject_when (other_plan content plan) code ≡ pass
      → (is_filled plan ≡ true) × (same_plan content plan ≡ true)
  other_plan-pass content plan code p = elim (Bool-cases (is_filled plan)) [
    | inr hollow ↦ cc (rw hollow at p)
    | inl filled ↦ (filled, named (index content "plan_id") refl (rw filled at p))
  ]
    where
      named :
          (m : Result Value)
          → index content "plan_id" ≡ m
          → reject_when (m >>= λ v. ok (not (py_eq v (get_or plan "plan_id" null)))) code ≡ pass
          → same_plan content plan ≡ true
      named (ok v) at q =
          subst (λ (c : Value). py_eq c (get_or plan "plan_id" null) ≡ true)
            (sym (field_value content "plan_id" v null at)) (not-false _ (reject_if-pass _ _ q))
      named (raised x) at q = cc

  done_tests : (b c : Bool) → (not b || c) ≡ false → b ≡ true
  done_tests b c h = ground arith

  module _ (s : TaskState) (e : Event) (task_id : String) (task_revision : ℤ) (w : ℕ) where
    abbrev pub view : TaskView
    view = publish task_id task_revision w s

    -- An event `task_failed` that passes ends the task.
    pub failed_effect :
        (code : String)
        → (e.kind == "task_done") ≡ false
        → int_is e.content "coordination_epoch" s.coordination_epoch code ≡ pass
        → on_terminal s e ≡ ok (on_task_terminal s e)
    unfolding on_terminal
    failed_effect code kind h = elim (Bool-cases (is_v2_content e.content)) [
      | inl v2 ↦
          rw
            (
              v2,
              int_is-pass e.content "coordination_epoch" code s.coordination_epoch (negsuc 0) h,
              (eq_ℤ_iff s.coordination_epoch s.coordination_epoch).1 refl,
              kind,
            )
            refl
      | inr legacy ↦ rw legacy refl
    ]

    abbrev pub plan_of_state : Fields
    plan_of_state = or_empty s.current_plan

    -- A plan that passes is adopted, and the round is closed.
    pub assigned_effect :
        (consumed : List String)
        → text_set e.content "input_evidence_refs" ≡ ok consumed
        → gate_assigned e.content view ≡ pass
        → on_task_assigned s e
          ≡ ok (record s {
            completed = if same_plan plan_of_state e.content then s.completed else [];
            current_plan = some e.content;
            active_bid_round = none;
            status = assigned;
            pending = without consumed s.pending;
          })
    unfolding on_task_assigned commit_plan gate_assigned publish
    assigned_effect consumed refs h =
        let (epoch, h₁) = and_then-pass _ _ h in
        let (round, plan) = and_then-pass _ _ h₁ in
        rw
          (
            int_is-pass e.content "coordination_epoch" "COORDINATION_EPOCH_MISMATCH"
                s.coordination_epoch (pos 0) epoch,
            (eq_ℤ_iff s.coordination_epoch s.coordination_epoch).1 refl,
            reject_if-pass (is_filled plan_of_state) "TASK_PLAN_ALREADY_COMMITTED" plan,
            refs,
            and_right_false (is_v2_content e.content)
                (not (is_filled (or_empty s.active_bid_round)))
                (reject_if-pass (not (is_filled (or_empty s.active_bid_round)))
                  "BID_ROUND_NOT_ACTIVE" round),
          )
          refl

    -- What a replan leaves of the state, when `consumed` is the evidence that it cites.
    abbrev pub replanned : List String → ℤ → TaskState
    replanned consumed to_epoch = record s {
      pending = without consumed s.pending;
      coordination_epoch = to_epoch;
      active_bid_round = none;
      current_plan = none;
      completed = [];
      status = replanning;
    }

    -- A replan that passes opens the next epoch, without round, plan or completed assignments.
    pub replan_effect :
        gate_replan e.content view ≡ pass
        → (refs : List String) × (text_set e.content "evidence_refs" ≡ ok refs)
          × (on_task_replan s e
              ≡ ok (
                  replanned
                    (with_cause (get_or e.content "cause_event_id" null) refs)
                    (s.coordination_epoch +ℤ pos 1)))
    unfolding on_task_replan gate_replan publish
    replan_effect h =
        let (from, h₁) = and_then-pass _ _ h in
        let (to, h₂) = and_then-pass _ _ h₁ in
        let (cause, evidence) = and_then-pass _ _ h₂ in
        let (v, at, is_pending) = >>=-eq-ok (index e.content "cause_event_id") _ cause in
        let (refs, texts, known) = >>=-eq-ok (texts_at e.content "evidence_refs") _ evidence in
        let (r, at_refs, set_of) = >>=-eq-ok (index e.content "evidence_refs") _ texts in
        (
          refs,
          set_of,
          rw
              (
                int_is-pass e.content "from_epoch" "COORDINATION_EPOCH_MISMATCH"
                    s.coordination_epoch (negsuc 0) from,
                int_is-pass e.content "to_epoch" "EPOCH_RELATION_INVALID"
                    (s.coordination_epoch +ℤ pos 1) (negsuc 0) to,
                (eq_ℤ_iff s.coordination_epoch s.coordination_epoch).1 refl,
                (eq_ℤ_iff (s.coordination_epoch +ℤ pos 1) (s.coordination_epoch +ℤ pos 1)).1 refl,
                set_of,
                counts v refs at is_pending known,
              )
              refl,
        )
      where
        counts :
            (v : Value) (refs : List String)
            → index e.content "cause_event_id" ≡ ok v
            → reject_if (not (in_texts v s.pending)) "REPLAN_CAUSE_NOT_PENDING" ≡ pass
            → reject_if (not (subset refs s.pending)) "REPLAN_EVIDENCE_NOT_PENDING" ≡ pass
            → (in_texts (get_or e.content "cause_event_id" null) s.pending
                && subset (with_cause (get_or e.content "cause_event_id" null) refs) s.pending)
              ≡ true
        counts v refs at p q =
            subst
              (λ (c : Value). (in_texts c s.pending && subset (with_cause c refs) s.pending) ≡ true)
              (sym (field_value e.content "cause_event_id" v null at))
              (cause_counts v refs s.pending
                (not-false _ (reject_if-pass _ "REPLAN_CAUSE_NOT_PENDING" p))
                (not-false _ (reject_if-pass _ "REPLAN_EVIDENCE_NOT_PENDING" q)))

    -- An event `task_done` that passes is due, and ends the task.
    pub done_effect :
        (e.kind == "task_done") ≡ true
        → gate_done e.content view ≡ pass
        → on_terminal s e ≡ ok (on_task_terminal s e)
    unfolding on_terminal done_is_due gate_done publish
    done_effect kind h =
        let (epoch, h₁) = and_then-pass _ _ h in
        let (plan, h₂) = and_then-pass _ _ h₁ in
        let (assignments, at, h₃) = >>=-eq-ok (plan_assignments plan_of_state) _ h₂ in
        let (expected, ids, h₄) = >>=-eq-ok (assignment_ids assignments) _ h₃ in
        let (declared, texts, complete) =
          >>=-eq-ok (texts_at e.content "completed_assignment_ids") _ h₄ in
        elim (Bool-cases (is_v2_content e.content)) [
          | inr legacy ↦ rw legacy refl
          | inl v2 ↦
              rw
                (
                  v2,
                  int_is-pass e.content "coordination_epoch" "COORDINATION_EPOCH_MISMATCH"
                      s.coordination_epoch (negsuc 0) epoch,
                  (eq_ℤ_iff s.coordination_epoch s.coordination_epoch).1 refl,
                  kind,
                  at,
                  ids,
                  (other_plan-pass e.content plan_of_state "TASK_DONE_PLAN_MISMATCH" plan).0,
                  (other_plan-pass e.content plan_of_state "TASK_DONE_PLAN_MISMATCH" plan).1,
                  all_completed expected declared complete,
                )
                refl
        ]
      where
        all_completed :
            (expected declared : List String)
            → reject_if
                (none_left expected
                  || not (subset expected view.completed_assignment_ids)
                  || not (
                      subset declared view.completed_assignment_ids
                      && subset view.completed_assignment_ids declared))
                "TASK_DONE_COMPLETION_INCOMPLETE"
              ≡ pass
            → (not (is_nil expected) && subset expected s.completed) ≡ true
        all_completed [] declared p = cc
        all_completed (x ∷ xs) declared p =
            rw (← subset-sort_texts (x ∷ xs) s.completed) (done_tests _ _ (reject_if-pass _ _ p))
