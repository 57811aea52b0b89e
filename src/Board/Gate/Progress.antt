-- ===== src/Board/Gate/Progress.antt =====
-- blackboard/board.py and blackboard/view.py: the gates of replans and ends, and the fold after their
-- append.
use blackboard_coordination.Base.{
  String, ◌≡◌, refl, ◌∙◌, true, false, ◌==◌, inl, inr, none, some, List, [], eq_iff, length,
}
use blackboard_coordination.Base.Int.{pos, ◌+ℤ◌}
use blackboard_coordination.Python.Result.{ok, pass}
use blackboard_coordination.Python.Value.{Builtins, Float, null, get_or}
use blackboard_coordination.Contracts.{Event, appended}
use blackboard_coordination.Validation.Common.{is_v2_content}
use blackboard_coordination.View.Match.{text_field}
use blackboard_coordination.View.Task.{
  TaskState, apply_event, on_terminal, on_task_replan, on_task_terminal, text_set, with_cause,
  TaskStatus, without,
}
use blackboard_coordination.View.Fold.{TaskView, publish}
use blackboard_coordination.Board.State.{Board}
use blackboard_coordination.Board.Gate.{gate_by_type, gate_replan, gate_done, int_is}
use blackboard_coordination.Board.Gate.Laws.{
  view, replanned, replan_effect, done_effect, failed_effect,
}
use blackboard_coordination.Board.Append.{Outcome, committed_at, append}
use blackboard_coordination.Board.Append.Cases.{Committed, append-Cases}
use blackboard_coordination.Board.Gate.Passed.{
  TaskAfter, is_checked, passed, committed_step, checked_kind,
}

module _ ⦃py : Builtins⦄ where
  kind_done : (k : String) → k ≡ "task_done" → (k == "task_done") ≡ true
  kind_done k h = (eq_iff k "task_done").1 h

  done_applied :
      (s : TaskState) (e : Event) → e.kind ≡ "task_done" → apply_event s e ≡ on_terminal s e
  unfolding apply_event
  done_applied s e kind = rw kind

  done_gated :
      (e : Event) (w : TaskView)
      → e.kind ≡ "task_done"
      → gate_by_type e w ≡ pass
      → gate_done e.content w ≡ pass
  unfolding gate_by_type
  done_gated e w kind h = rw kind at h

  done_status :
      (s : TaskState) (e : Event)
      → e.kind ≡ "task_done"
      → (on_task_terminal s e).status ≡ TaskStatus.done
  unfolding on_task_terminal
  done_status s e kind = rw kind

  terminal_event : (s : TaskState) (e : Event) → (on_task_terminal s e).terminal ≡ some e
  unfolding on_task_terminal
  terminal_event s e = refl

  -- A v2 `task_done` that an append has committed is the end of its task: the state folded from
  -- the stream after the append has it as its terminal event, with status done.
  pub append-done :
      (now : Float) (b : Board) (e : Event) (o : Outcome)
      → append now b e ≡ ok o
      → o.result.status ≡ appended
      → is_v2_content e.content ≡ true
      → e.kind ≡ "task_done"
      → TaskAfter o.board e
          (λ t. (t.terminal ≡ some (committed_at now e b)) × (t.status ≡ TaskStatus.done))
  append-done now b e o h committed v2 kind = elim (append-Cases now b e o h) [
    | inl kept ↦ absurd (kept.status committed)
    | inr c ↦ ended c (checked_kind e "task_done" kind refl)
  ]
    where
      ended :
          (c : Committed now b e o)
          → is_checked e ≡ true
          → TaskAfter o.board e
              (λ t. (t.terminal ≡ some (committed_at now e b)) × (t.status ≡ TaskStatus.done))
      ended c checked =
          let p = passed now b e o c v2 checked in
          (
            p.number,
            on_task_terminal p.state (committed_at now e b),
            p.numbered,
            committed_step now b e o c v2 checked
                ∙ done_applied p.state (committed_at now e b) kind
                ∙ done_effect p.state (committed_at now e b) (text_field e.content "task_id")
                    p.number (length b.events) (kind_done e.kind kind)
                    (done_gated e _ kind p.gated),
            (
              terminal_event p.state (committed_at now e b),
              done_status p.state (committed_at now e b) kind,
            ),
          )

  replan_gated :
      (e : Event) (w : TaskView)
      → e.kind ≡ "task_replan"
      → gate_by_type e w ≡ pass
      → gate_replan e.content w ≡ pass
  unfolding gate_by_type
  replan_gated e w kind h = rw kind at h

  replan_applied :
      (s : TaskState) (e : Event) → e.kind ≡ "task_replan" → apply_event s e ≡ on_task_replan s e
  unfolding apply_event
  replan_applied s e kind = rw kind

  -- A v2 `task_replan` that an append has committed opens the next epoch: with `s` the state
  -- folded before, the state folded after is replanning in the epoch after that of `s`, with no
  -- round, no plan and no completed assignment, and its pending causes are those of `s` without
  -- the cause and the evidence that the event cites.
  pub append-replan :
      (now : Float) (b : Board) (e : Event) (o : Outcome)
      → append now b e ≡ ok o
      → o.result.status ≡ appended
      → is_v2_content e.content ≡ true
      → e.kind ≡ "task_replan"
      → TaskAfter b e (λ s. TaskAfter o.board e (λ t.
        (refs : List String) × (text_set e.content "evidence_refs" ≡ ok refs)
        × (t ≡ record s {
          pending = without (with_cause (get_or e.content "cause_event_id" null) refs) s.pending;
          coordination_epoch = s.coordination_epoch +ℤ pos 1;
          active_bid_round = none;
          current_plan = none;
          completed = [];
          status = TaskStatus.replanning;
        })))
  append-replan now b e o h committed v2 kind = elim (append-Cases now b e o h) [
    | inl kept ↦ absurd (kept.status committed)
    | inr c ↦ replanned_by c (checked_kind e "task_replan" kind refl)
  ]
    where
      replanned_by :
          (c : Committed now b e o)
          → is_checked e ≡ true
          → TaskAfter b e (λ s. TaskAfter o.board e (λ t.
            (refs : List String) × (text_set e.content "evidence_refs" ≡ ok refs)
            × (t
                ≡ replanned s e
                    (text_field e.content "task_id")
                    (pos 0)
                    0
                    (with_cause (get_or e.content "cause_event_id" null) refs)
                    (s.coordination_epoch +ℤ pos 1))))
      replanned_by c checked =
          let p = passed now b e o c v2 checked in
          let (refs, cited, step) =
            replan_effect p.state (committed_at now e b) (text_field e.content "task_id") p.number
              (length b.events) (replan_gated e _ kind p.gated) in
          (
            p.number,
            p.state,
            p.numbered,
            p.folded,
            (
              p.number,
              _,
              p.numbered,
              committed_step now b e o c v2 checked
                  ∙ replan_applied p.state (committed_at now e b) kind
                  ∙ step,
              (refs, cited, refl),
            ),
          )

  failed_gated :
      (e : Event) (w : TaskView)
      → e.kind ≡ "task_failed"
      → gate_by_type e w ≡ pass
      → int_is e.content "coordination_epoch" w.coordination_epoch "COORDINATION_EPOCH_MISMATCH"
        ≡ pass
  unfolding gate_by_type
  failed_gated e w kind h = rw kind at h

  failed_applied :
      (s : TaskState) (e : Event) → e.kind ≡ "task_failed" → apply_event s e ≡ on_terminal s e
  unfolding apply_event
  failed_applied s e kind = rw kind

  failed_status :
      (s : TaskState) (e : Event)
      → e.kind ≡ "task_failed"
      → (on_task_terminal s e).status ≡ TaskStatus.failed
  unfolding on_task_terminal
  failed_status s e kind = rw kind

  failed_kind : (k : String) → k ≡ "task_failed" → (k == "task_done") ≡ false
  failed_kind k h = rw h refl

  -- A v2 `task_failed` that an append has committed is the end of its task: the state folded from
  -- the stream after the append has it as its terminal event, with status failed.
  pub append-failed :
      (now : Float) (b : Board) (e : Event) (o : Outcome)
      → append now b e ≡ ok o
      → o.result.status ≡ appended
      → is_v2_content e.content ≡ true
      → e.kind ≡ "task_failed"
      → TaskAfter o.board e
          (λ t. (t.terminal ≡ some (committed_at now e b)) × (t.status ≡ TaskStatus.failed))
  append-failed now b e o h committed v2 kind = elim (append-Cases now b e o h) [
    | inl kept ↦ absurd (kept.status committed)
    | inr c ↦ ended c (checked_kind e "task_failed" kind refl)
  ]
    where
      ended :
          (c : Committed now b e o)
          → is_checked e ≡ true
          → TaskAfter o.board e
              (λ t. (t.terminal ≡ some (committed_at now e b)) × (t.status ≡ TaskStatus.failed))
      ended c checked =
          let p = passed now b e o c v2 checked in
          (
            p.number,
            on_task_terminal p.state (committed_at now e b),
            p.numbered,
            committed_step now b e o c v2 checked
                ∙ failed_applied p.state (committed_at now e b) kind
                ∙ failed_effect p.state (committed_at now e b) (text_field e.content "task_id")
                    p.number (length b.events) "COORDINATION_EPOCH_MISMATCH"
                    (failed_kind e.kind kind)
                    (unfold publish in
                      failed_gated e
                        (view p.state e (text_field e.content "task_id") p.number (length b.events))
                        kind p.gated),
            (
              terminal_event p.state (committed_at now e b),
              failed_status p.state (committed_at now e b) kind,
            ),
          )
