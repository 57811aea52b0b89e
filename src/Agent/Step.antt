-- ===== src/Agent/Step.antt =====
-- coordination/agent_loop.py: `PureAgentLoop.step`.
use blackboard_coordination.Base.{String, true, ◌==◌, if◌then◌else◌}
use blackboard_coordination.Python.Result.{Result, ok}
use blackboard_coordination.Python.Value.{Builtins}
use blackboard_coordination.Policy.Bids.{Arithmetic, EligibilityBidEngine}
use blackboard_coordination.Sessions.Outbox.{Digest}
use blackboard_coordination.Agent.Intents.{JsonText}
use blackboard_coordination.Agent.Loop.{
  LoopInput, StepResult, no_effect, on_action_intent, on_receipt, on_safety_intercept,
  on_assignment_completed, on_replan, on_end, on_estop,
}
use blackboard_coordination.Agent.Rounds.{on_round_opened}
use blackboard_coordination.Agent.Assigned.{on_assigned}

module _ ⦃py : Builtins⦄ ⦃hash : Digest⦄ ⦃json : JsonText⦄ ⦃fp : Arithmetic⦄ where
  -- `PureAgentLoop.step`
  unfoldable pub agent_step : String → EligibilityBidEngine → LoopInput → Result StepResult
  agent_step device_id engine input =
      let kind = input.event.kind in
      let content = input.event.content in
      let s = input.session in
      if kind == "bid_round_opened"
      then on_round_opened device_id engine input
      else if kind == "task_assigned"
      then on_assigned device_id input
      else if kind == "action_intent"
      then ok (on_action_intent content s)
      else if kind == "receipt"
      then ok (on_receipt content s)
      else if kind == "safety_intercept"
      then ok (on_safety_intercept content s)
      else if kind == "assignment_completed"
      then ok (on_assignment_completed content s)
      else if kind == "task_replan"
      then on_replan content s
      else if kind == "task_done"
      then ok (on_end "done" s)
      else if kind == "task_failed"
      then ok (on_end "failed" s)
      else if kind == "estop"
      then ok (on_estop device_id content s)
      else ok (no_effect s true)
