-- ===== src/Board/Poison.antt =====
-- blackboard/validation.py and blackboard/view.py: a legacy plan with a number as its evidence, as the
-- first event of a stream.
use blackboard_coordination.Base.{
  String, ◌≡◌, ◌≢◌, refl, true, false, some, List, [], ◌∷◌, eq_refl, inl, inr, arith,
}
use blackboard_coordination.Base.Int.{ℤ, pos}
use blackboard_coordination.Python.Result.{ok, raised, type_error}
use blackboard_coordination.Python.Result.Laws.{>>=-eq-ok}
use blackboard_coordination.Python.Value.{Builtins, Float, get, int}
use blackboard_coordination.Contracts.{Event, appended}
use blackboard_coordination.Validation.Common.{is_v2_content}
use blackboard_coordination.View.Match.{
  int_field, text_field, revision, matches_task, effective_task_revisions, note_posted,
  effective_revision, iterate,
}
use blackboard_coordination.View.Task.{
  TaskState, initial, apply_event, on_task_assigned, commit_plan, text_set,
}
use blackboard_coordination.View.Fold.{belongs, task_step, fold_task, task_state}
use blackboard_coordination.Board.State.{Board}
use blackboard_coordination.Board.Append.{Outcome, append}
use blackboard_coordination.Board.Append.Cases.{append-Cases}
use blackboard_coordination.Board.Gate.Passed.{is_checked, passed, Passed}

module _ ⦃py : Builtins⦄ where
  -- A v1 `task_assigned` for a task whose `input_evidence_refs` is a number.
  pub record IsPoison (task_id : String) (e : Event) : Type 0 where
    pub kind : e.kind ≡ "task_assigned"
    pub legacy : is_v2_content e.content ≡ false
    pub task : text_field e.content "task_id" ≡ task_id
    pub first_revision : revision e.content ≡ ok (pos 1)
    pub no_epoch : int_field e.content "coordination_epoch" (pos 0) ≡ ok (pos 0)
    pub number : ℤ
    pub refs : get e.content "input_evidence_refs" ≡ some (int number)

  poison_refs :
      {task_id : String} {e : Event}
      → IsPoison task_id e
      → text_set e.content "input_evidence_refs" ≡ raised type_error
  unfolding text_set iterate
  poison_refs p = ground (arith, p.refs)

  poison_step :
      {task_id : String} {e : Event} (r : ℤ)
      → IsPoison task_id e
      → task_step task_id (pos 1) initial e r ≡ raised type_error
  unfolding task_step belongs matches_task apply_event on_task_assigned commit_plan
  poison_step {task_id} r p =
      rw (p.kind, p.task, eq_refl task_id, p.first_revision, p.no_epoch, p.legacy, poison_refs p)
        refl

  poison_fold :
      {task_id : String} {e : Event} (es : List Event) (rs : List ℤ) (t : TaskState)
      → IsPoison task_id e
      → effective_task_revisions [] (e ∷ es) ≡ ok rs
      → fold_task task_id (pos 1) initial (e ∷ es) rs ≢ ok t
  unfolding effective_task_revisions fold_task
  poison_fold {task_id} {e} es rs t p h q =
      let (posted, noted, h₁) = >>=-eq-ok (note_posted [] e) _ h in
      let (r, read, h₂) = >>=-eq-ok (effective_revision posted e) _ h₁ in
      let (rest, others, h₃) = >>=-eq-ok (effective_task_revisions posted es) _ h₂ in
      unreadable r rest (cc h₃) q
    where
      unreadable :
          (r : ℤ) (rest : List ℤ)
          → rs ≡ r ∷ rest
          → fold_task task_id (pos 1) initial (e ∷ es) rs ≡ ok t
          → ⊥
      unreadable r rest shape folded =
          let (s, step, more) =
            >>=-eq-ok (task_step task_id (pos 1) initial e r) _ (rw shape at folded) in
          cc (poison_step r p)

  -- No state of the first revision of a task can be folded from a stream that begins with a
  -- poisonous event for the task, whatever follows it.
  pub task_state-poisoned :
      {task_id : String} {e : Event} (es : List Event) (t : TaskState)
      → IsPoison task_id e
      → task_state (e ∷ es) task_id (pos 1) ≢ ok t
  unfolding task_state
  task_state-poisoned {task_id} {e} es t p h =
      let (rs, revisions, folded) = >>=-eq-ok (effective_task_revisions [] (e ∷ es)) _ h in
      poison_fold es rs t p revisions folded

  -- On a board whose stream begins with a poisonous event for a task, an append that returns does
  -- not commit a v2 event of a checked kind (a bid round, a plan, an action intent, a replan or an
  -- end) for the first revision of the task.
  pub append-poisoned :
      {task_id : String} {e : Event} (es : List Event) (now : Float) (b : Board) (f : Event)
      (o : Outcome)
      → IsPoison task_id e
      → b.events ≡ e ∷ es
      → is_v2_content f.content ≡ true
      → is_checked f ≡ true
      → text_field f.content "task_id" ≡ task_id
      → int_field f.content "task_revision" (pos 1) ≡ ok (pos 1)
      → append now b f ≡ ok o
      → o.result.status ≢ appended
  append-poisoned {task_id} {e} es now b f o p stream v2 checked task number h committed =
      elim (append-Cases now b f o h) [
        | inl kept ↦ kept.status committed
        | inr c ↦ never (passed now b f o c v2 checked)
      ]
    where
      never : Passed b.events f → ⊥
      never w =
          task_state-poisoned es w.state p
            (rw (← stream, ← task) (first (cc (w.numbered, number)) w.folded))
        where
          first :
              w.number ≡ pos 1
              → task_state b.events (text_field f.content "task_id") w.number ≡ ok w.state
              → task_state b.events (text_field f.content "task_id") (pos 1) ≡ ok w.state
          first n folded = rw n at folded
