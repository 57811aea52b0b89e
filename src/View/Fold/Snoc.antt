-- ===== src/View/Fold/Snoc.antt =====
-- blackboard/view.py: the fold of a stream with one more event at its end.
use blackboard_coordination.Base.{
  String, ◌≡◌, refl, true, false, none, List, [], ◌∷◌, ◌++◌, ◌==◌, length, arith, eq_refl,
  Bool-cases, inl, inr, ap,
}
use blackboard_coordination.Base.Int.{ℤ, pos, eq_ℤ_iff}
use blackboard_coordination.Base.Dict.{Assoc}
use blackboard_coordination.Python.Result.{ok}
use blackboard_coordination.Python.Result.Laws.{>>=-eq-ok}
use blackboard_coordination.Python.Value.{Builtins, has}
use blackboard_coordination.Contracts.{Event}
use blackboard_coordination.View.Match.{
  latest_or_one, text_field, int_field, revision, matches_task, note_posted, effective_revision,
  effective_task_revisions,
}
use blackboard_coordination.View.Task.{TaskState, initial, apply_event}
use blackboard_coordination.View.Fold.{belongs, task_step, fold_task, task_state}

module _ ⦃py : Builtins⦄ where
  -- The event is one of the task's: its payload names the task and the revision.
  pub record IsOf (task_id : String) (n : ℤ) (e : Event) : Type 0 where
    pub task : text_field e.content "task_id" ≡ task_id
    pub number : int_field e.content "task_revision" (pos 1) ≡ ok n
    pub not_clue : (e.kind == "clue") ≡ false
    pub not_posted : (e.kind == "task_posted") ≡ false

  revision-IsOf :
      {task_id : String} {n : ℤ} {e : Event} → IsOf task_id n e → revision e.content ≡ ok n
  unfolding revision
  revision-IsOf of = rw of.number

  belongs-IsOf :
      {task_id : String} {n : ℤ} {e : Event} (r : ℤ)
      → IsOf task_id n e
      → belongs task_id n e r ≡ ok true
  unfolding belongs matches_task
  belongs-IsOf {task_id} {n} r of =
      rw (of.not_clue, of.task, eq_refl task_id, revision-IsOf of) (ap ok ((eq_ℤ_iff n n).1 refl))

  noted :
      {task_id : String} {n : ℤ} {e : Event} (latest : Assoc ℤ)
      → IsOf task_id n e
      → note_posted latest e ≡ ok latest
  unfolding note_posted
  noted latest of = rw of.not_posted

  effective :
      {task_id : String} {n : ℤ} {e : Event} (latest : Assoc ℤ)
      → IsOf task_id n e
      → (r : ℤ) × (effective_revision latest e ≡ ok r)
  unfolding effective_revision
  effective {n = n} {e = e} latest of = elim (Bool-cases (has e.content "task_revision")) [
    | inl there ↦ (n, rw there (revision-IsOf of))
    | inr missing ↦ (latest_or_one (text_field e.content "task_id") latest, rw missing refl)
  ]

  revisions-snoc :
      {task_id : String} {n : ℤ} {e : Event} (latest : Assoc ℤ) (es : List Event) (rs : List ℤ)
      → IsOf task_id n e
      → effective_task_revisions latest es ≡ ok rs
      → (r : ℤ) × (effective_task_revisions latest (es ++ e ∷ []) ≡ ok (rs ++ r ∷ []))
        × (length rs ≡ length es)
  unfolding effective_task_revisions
  revisions-snoc {e = e} latest [] rs of h =
      let (r, q) = effective latest of in (r, rw (noted latest of, q) (ground arith), ground arith)
  revisions-snoc {e = e} latest (x ∷ es) rs of h =
      let (posted, p, h₁) = >>=-eq-ok (note_posted latest x) _ h in
      let (q, pq, h₂) = >>=-eq-ok (effective_revision posted x) _ h₁ in
      let (rest, pr, h₃) = >>=-eq-ok (effective_task_revisions posted es) _ h₂ in
      let (r, ih, len) = revisions-snoc posted es rest of pr in
      (r, rw (p, pq, ih) (ground arith), ground arith)

  fold_task-snoc :
      (task_id : String) (n : ℤ) (s : TaskState) (es : List Event) (rs : List ℤ) (e : Event) (r : ℤ)
      (s' : TaskState)
      → length rs ≡ length es
      → fold_task task_id n s es rs ≡ ok s'
      → fold_task task_id n s (es ++ e ∷ []) (rs ++ r ∷ []) ≡ task_step task_id n s' e r
  unfolding fold_task
  fold_task-snoc task_id n s [] [] e r s' l h = ground arith
  fold_task-snoc task_id n s [] (q ∷ rs) e r s' l h = absurd (omega arith)
  fold_task-snoc task_id n s (x ∷ es) [] e r s' l h = absurd (omega arith)
  fold_task-snoc task_id n s (x ∷ es) (q ∷ rs) e r s' l h =
      let (t, p, h₁) = >>=-eq-ok (task_step task_id n s x q) _ h in
      rw p (fold_task-snoc task_id n t es rs e r s' (omega arith) h₁)

  -- On a task that has not ended, the event is applied to the state folded so far.
  pub task_state-snoc :
      {task_id : String} {n : ℤ} {s : TaskState} (es : List Event) (e : Event)
      → IsOf task_id n e
      → task_state es task_id n ≡ ok s
      → s.terminal ≡ none
      → task_state (es ++ e ∷ []) task_id n ≡ apply_event s e
  unfolding task_state task_step
  task_state-snoc {task_id} {n} {s} es e of h open_task =
      let (rs, p, h₁) = >>=-eq-ok (effective_task_revisions [] es) _ h in
      let (r, q, len) = revisions-snoc [] es rs of p in
      rw (q, fold_task-snoc task_id n initial es rs e r s len h₁, belongs-IsOf r of, open_task) refl
