-- ===== src/Board/Gate/Assigned.antt =====
-- blackboard/board.py and blackboard/view.py: the gate of a v2 plan, and the fold after its append.
use blackboard_coordination.Base.{
  String, ◌≡◌, refl, ◌∙◌, true, none, some, List, [], length, inl, inr, if◌then◌else◌,
}
use blackboard_coordination.Python.Result.{ok, pass}
use blackboard_coordination.Board.Gate.{gate_assigned, gate_by_type}
use blackboard_coordination.Board.Gate.Passed.{
  TaskAfter, passed, committed_step, checked_kind, is_checked,
}
use blackboard_coordination.Board.Gate.Laws.{assigned_effect}
use blackboard_coordination.Python.Value.{Builtins, Float}
use blackboard_coordination.Contracts.{Event, appended}
use blackboard_coordination.View.Fold.{TaskView}
use blackboard_coordination.Board.Append.Cases.{Committed, append-Cases}
use blackboard_coordination.Validation.Common.{is_v2_content}
use blackboard_coordination.View.Match.{text_field, or_empty}
use blackboard_coordination.View.Task.{
  TaskStatus, text_set, same_plan, without, apply_event, TaskState, on_task_assigned,
}
use blackboard_coordination.Board.State.{Board}
use blackboard_coordination.Board.Append.{Outcome, append, committed_at}

module _ ⦃py : Builtins⦄ where
  assigned_gated :
      (e : Event) (w : TaskView)
      → e.kind ≡ "task_assigned"
      → gate_by_type e w ≡ pass
      → gate_assigned e.content w ≡ pass
  unfolding gate_by_type
  assigned_gated e w kind h = rw kind at h

  assigned_applied :
      (s : TaskState) (e : Event)
      → e.kind ≡ "task_assigned"
      → apply_event s e ≡ on_task_assigned s e
  unfolding apply_event
  assigned_applied s e kind = rw kind

  -- A v2 `task_assigned` that an append has committed, with evidence that is a list, is the plan of
  -- its task: with `s` the state folded before, the state folded after is assigned, in the epoch of
  -- `s`, with the payload as its plan and no round, and its pending causes are those of `s` without
  -- the evidence that the plan has taken in. Completed assignments stay only if `s` had a plan of
  -- the same name.
  pub append-assigned :
      (now : Float) (b : Board) (e : Event) (o : Outcome) (refs : List String)
      → append now b e ≡ ok o
      → o.result.status ≡ appended
      → is_v2_content e.content ≡ true
      → e.kind ≡ "task_assigned"
      → text_set e.content "input_evidence_refs" ≡ ok refs
      → TaskAfter b e (λ s. TaskAfter o.board e (λ t. t ≡ record s {
        completed = if same_plan (or_empty s.current_plan) e.content then s.completed else [];
        current_plan = some e.content;
        active_bid_round = none;
        status = TaskStatus.assigned;
        pending = without refs s.pending;
      }))
  append-assigned now b e o refs h committed v2 kind cited = elim (append-Cases now b e o h) [
    | inl kept ↦ absurd (kept.status committed)
    | inr c ↦ adopted c (checked_kind e "task_assigned" kind refl)
  ]
    where
      adopted :
          (c : Committed now b e o)
          → is_checked e ≡ true
          → TaskAfter b e (λ s. TaskAfter o.board e (λ t. t ≡ record s {
            completed = if same_plan (or_empty s.current_plan) e.content then s.completed else [];
            current_plan = some e.content;
            active_bid_round = none;
            status = TaskStatus.assigned;
            pending = without refs s.pending;
          }))
      adopted c checked =
          let p = passed now b e o c v2 checked in
          (
            p.number,
            p.state,
            p.numbered,
            p.folded,
            (
              p.number,
              _,
              p.numbered,
              committed_step now b e o c v2 checked
                  ∙ assigned_applied p.state (committed_at now e b) kind
                  ∙ assigned_effect p.state (committed_at now e b) (text_field e.content "task_id")
                      p.number (length b.events) refs cited (assigned_gated e _ kind p.gated),
              refl,
            ),
          )
