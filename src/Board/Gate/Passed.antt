-- ===== src/Board/Gate/Passed.antt =====
-- blackboard/board.py and blackboard/view.py: what the gate has read of an event that it lets in, and the
-- fold of the stream after its commit.
use blackboard_coordination.Base.{
  String, ◌≡◌, refl, Bool, true, false, not, ◌&&◌, ◌==◌, Bool-cases, inl, inr, Option, none, some,
  List, member, arith, eq_iff, length,
}
use blackboard_coordination.Base.Int.{ℤ, pos}
use blackboard_coordination.Python.Result.{ok, pass, reject_if, ◌and_then◌}
use blackboard_coordination.Python.Result.Laws.{>>=-eq-ok, and_then-pass, reject_if-pass}
use blackboard_coordination.Python.Value.{Builtins, Float}
use blackboard_coordination.Contracts.{Event}
use blackboard_coordination.Validation.Common.{is_v2_content}
use blackboard_coordination.View.Match.{int_field, text_field}
use blackboard_coordination.View.Task.{TaskState, apply_event}
use blackboard_coordination.View.Fold.{TaskView, publish, task_state, task_coordination_view}
use blackboard_coordination.View.Fold.Snoc.{IsOf, task_state-snoc}
use blackboard_coordination.Board.State.{Board}
use blackboard_coordination.Board.Gate.{
  validate_v2_transition, gate_v2, gate_view, gate_by_type, has_event, state_gated_v2_types,
  is_filled,
}
use blackboard_coordination.Board.Gate.Laws.{view}
use mathlib.Core.Path.{subst}
use blackboard_coordination.Board.Append.{Outcome, committed_at, commit}
use blackboard_coordination.Board.Append.Cases.{Committed}
use blackboard_coordination.Board.Append.Idempotence.{deliver-SameIndexes}

module _ ⦃py : Builtins⦄ where
  -- What the gate has read when it lets in a v2 event of a known task.
  pub record Passed (events : List Event) (e : Event) : Type 0 where
    pub number : ℤ
    pub state : TaskState
    pub numbered : int_field e.content "task_revision" (pos 1) ≡ ok number
    pub folded : task_state events (text_field e.content "task_id") number ≡ ok state
    pub open_task : state.terminal ≡ none
    pub gated :
        gate_by_type e (view state e (text_field e.content "task_id") number (length events)) ≡ pass

  no_event : (o : Option Event) → has_event o ≡ false → o ≡ none
  no_event none h = refl
  no_event (some x) h = cc

  -- The kinds of event that the gate compares with the folded state.
  abbrev pub is_checked : Event → Bool
  is_checked e = member e.kind state_gated_v2_types && not (e.kind == "task_posted")

  gate_view-pass :
      (e : Event) (w : TaskView)
      → gate_view e w ≡ pass
      → (w.terminal_event ≡ none) × (gate_by_type e w ≡ pass)
  unfolding gate_view
  gate_view-pass e w q =
      let q₁ =
        (and_then-pass (reject_if (not (is_filled w.task)) "TASK_REVISION_NOT_FOUND")
          (reject_if (has_event w.terminal_event) "TASK_ALREADY_TERMINAL" and_then gate_by_type e w)
          q).1 in
      let (going, gated) =
        and_then-pass (reject_if (has_event w.terminal_event) "TASK_ALREADY_TERMINAL")
          (gate_by_type e w) q₁ in
      (
        no_event w.terminal_event
            (reject_if-pass (has_event w.terminal_event) "TASK_ALREADY_TERMINAL" going),
        gated,
      )

  gate_view-Passed :
      (events : List Event) (e : Event) (n : ℤ) (w : TaskView)
      → int_field e.content "task_revision" (pos 1) ≡ ok n
      → task_coordination_view events (text_field e.content "task_id") n (length events) ≡ ok w
      → gate_view e w ≡ pass
      → Passed events e
  unfolding task_coordination_view
  gate_view-Passed events e n w numbered p q =
      let (s, folded, r) = >>=-eq-ok (task_state events (text_field e.content "task_id") n) _ p in
      passed s folded r
    where
      passed :
          (s : TaskState)
          → task_state events (text_field e.content "task_id") n ≡ ok s
          → ok (view s e (text_field e.content "task_id") n (length events)) ≡ ok w
          → Passed events e
      passed s folded r =
          let read =
            gate_view-pass e (view s e (text_field e.content "task_id") n (length events))
              (subst (λ (x : TaskView). gate_view e x ≡ pass) (cc) q) in
          record {
            number = n;
            state = s;
            numbered = numbered;
            folded = folded;
            open_task = unfold publish in read.0;
            gated = read.1;
          }

  and_not : (a b : Bool) → (a && not b) ≡ true → (a ≡ true) × (b ≡ false)
  and_not a b h = ground arith

  pub gate-Passed :
      (events : List Event) (e : Event)
      → is_v2_content e.content ≡ true
      → is_checked e ≡ true
      → validate_v2_transition events e ≡ pass
      → Passed events e
  unfolding validate_v2_transition gate_v2
  gate-Passed events e v2 checked h =
      let both = and_not (member e.kind state_gated_v2_types) (e.kind == "task_posted") checked in
      let gate = rw (v2, both.0) at h in
      let (n, numbered, r) = >>=-eq-ok (int_field e.content "task_revision" (pos 1)) _ gate in
      let r₁ = rw both.1 at r in
      let (w, p, q) =
        >>=-eq-ok (task_coordination_view events (text_field e.content "task_id") n (length events))
          _ r₁ in
      gate_view-Passed events e n w numbered p q

  not_a_clue :
      (k : String)
      → (member k state_gated_v2_types && not (k == "task_posted")) ≡ true
      → (k == "clue") ≡ false
  not_a_clue k h = elim (Bool-cases (k == "clue")) [
    | inr other ↦ other
    | inl p ↦ cc (rw ((eq_iff k "clue").0 p) at h)
  ]

  -- The commit puts the event at the end of its task's fold.
  module _ (now : Float) (b : Board) (e : Event) (o : Outcome) (c : Committed now b e o)
      (v2 : is_v2_content e.content ≡ true) (checked : is_checked e ≡ true) where
    pub passed : Passed b.events e
    passed = gate-Passed b.events e v2 checked c.gated

    pub committed_step :
        task_state o.board.events (text_field e.content "task_id") passed.number
        ≡ apply_event passed.state (committed_at now e b)
    unfolding commit
    committed_step =
        rw
          (
            c.board,
            (deliver-SameIndexes b.subscribers (committed_at now e b) (length b.events)
                (commit now e c.key b)).events,
          )
          (task_state-snoc b.events (committed_at now e b) is_of passed.folded passed.open_task)
      where
        is_of : IsOf (text_field e.content "task_id") passed.number (committed_at now e b)
        is_of = record {
          task = refl;
          number = passed.numbered;
          not_clue = not_a_clue e.kind checked;
          not_posted = (and_not _ _ checked).1;
        }

  pub checked_kind :
      (e : Event) (k : String)
      → e.kind ≡ k
      → (member k state_gated_v2_types && not (k == "task_posted")) ≡ true
      → is_checked e ≡ true
  checked_kind e k kind h = rw kind h

  -- The state of the event's task that is folded from the stream after the append.
  abbrev pub TaskAfter : Board → Event → (TaskState → Type 0) → Type 0
  TaskAfter b e P =
      (number : ℤ) × (t : TaskState) × (int_field e.content "task_revision" (pos 1) ≡ ok number)
      × (task_state b.events (text_field e.content "task_id") number ≡ ok t)
      × P t
