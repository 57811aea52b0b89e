-- ===== src/Agent/Laws.antt =====
-- coordination/agent_loop.py: the submissions of a step, and the session that it leaves, against the
-- store.
use blackboard_coordination.Base.{
  String, ◌≡◌, refl, ap, ◌∙◌, true, false, some, arith, ◌⊎◌, inl, inr, member, eq_iff,
}
use blackboard_coordination.Base.Int.{ℤ, pos, negsuc, ◌+ℤ◌, eq_ℤ, ltb_ℤ}
use blackboard_coordination.Python.Result.{ok}
use blackboard_coordination.Python.Value.{Builtins, to_int}
use blackboard_coordination.Policy.Bids.{Arithmetic, EligibilityBidEngine}
use blackboard_coordination.Sessions.Files.{Files, read_json, atomic_write_json}
use blackboard_coordination.Sessions.Outbox.{Digest, is_none}
use blackboard_coordination.Sessions.Tasks.{session_path, save_session, may_replace}
use blackboard_coordination.Sessions.Tasks.Session.{
  TaskSession, session_to_json, IntentSession, intent_states,
}
use blackboard_coordination.Agent.Intents.{JsonText, SubmitActionIntentPayload}
use blackboard_coordination.Agent.Loop.{LoopInput, StepResult, is_replayed, proposed}
use blackboard_coordination.Agent.Step.{agent_step}
use blackboard_coordination.Agent.Moves.{Submits}
use blackboard_coordination.Agent.Moves.Steps.{agent_step-Gives}

next_after : (v : ℤ) → (ltb_ℤ (v +ℤ pos 1) v ≡ false) × (eq_ℤ v (v +ℤ pos 1) ≡ false)
next_after (pos n) = (ground arith, ground arith)
next_after (negsuc n) = (ground arith, ground arith)

session_to_json-is_some : (s : TaskSession) → is_none (session_to_json s) ≡ false
unfolding is_none session_to_json
session_to_json-is_some s = refl

-- An intent in an enumerated state that is not replayed is only proposed.
unsettled :
    (i : IntentSession) (intent_id : String)
    → i.intent_id ≡ intent_id
    → member i.state intent_states ≡ true
    → is_replayed (some i) intent_id ≡ false
    → i.state ≡ "proposed"
unfolding is_replayed
unsettled i intent_id same known fresh =
    ground
      (arith, eq_iff i.intent_id intent_id, eq_iff "proposed" i.state, eq_iff i.state "proposed")

module _ ⦃py : Builtins⦄ ⦃hash : Digest⦄ where
  -- A session may replace one of the version before.
  may_replace-next :
      (s t : TaskSession)
      → t.session_version ≡ s.session_version +ℤ pos 1
      → may_replace t (session_to_json s) ≡ ok true
  unfolding may_replace session_to_json to_int
  may_replace-next s t h =
      rw (h, (next_after s.session_version).0, (next_after s.session_version).1) refl

  save_session-next :
      (s t : TaskSession) (fs : Files)
      → read_json (session_path s.task_id) fs ≡ session_to_json s
      → t.task_id ≡ s.task_id
      → t.session_version ≡ s.session_version +ℤ pos 1
      → save_session t fs ≡ ok (atomic_write_json (session_path t.task_id) (session_to_json t) fs)
  unfolding save_session
  save_session-next s t fs there task version =
      let now : read_json (session_path t.task_id) fs ≡ session_to_json s =
        ap (λ id. read_json (session_path id) fs) task ∙ there in
      rw (now, session_to_json-is_some s, may_replace-next s t version) refl

  module _ ⦃json : JsonText⦄ ⦃fp : Arithmetic⦄ (device_id : String) (engine : EligibilityBidEngine)
      (input : LoopInput) where
    -- A step that submits an action leaves its intent, proposed, in the session; and where the
    -- session held that very intent before, in one of the enumerated states, the state was proposed:
    -- from any later state (dispatching, dispatched, succeeded, failed, safety_blocked,
    -- dispatch_unknown) no step submits it.
    pub agent_step-Submits :
        (r : StepResult) (p : SubmitActionIntentPayload)
        → agent_step device_id engine input ≡ ok r
        → Submits r p
        → (r.session_after.current_intent ≡ some (proposed p))
          × ((i : IntentSession)
              → input.session.current_intent ≡ some i
              → i.intent_id ≡ p.intent.intent_id
              → member i.state intent_states ≡ true
              → i.state ≡ "proposed")
    agent_step-Submits r p h submitted =
        let (fresh, left) = (agent_step-Gives device_id engine input r h).submits p submitted in
        (left, λ i held same known. unsettled i p.intent.intent_id same known (rw held at fresh))

    -- Where the store holds the session that a step began with, the step keeps the session or the
    -- store takes the one that it leaves.
    pub agent_step-save_session :
        (r : StepResult) (fs : Files)
        → agent_step device_id engine input ≡ ok r
        → read_json (session_path input.session.task_id) fs ≡ session_to_json input.session
        → (r.session_after ≡ input.session)
          ⊎ ((gs : Files) × (save_session r.session_after fs ≡ ok gs))
    agent_step-save_session r fs h there =
        let m = agent_step-Gives device_id engine input r h in
        elim m.version [
          | inl same ↦ inl same
          | inr next ↦ inr (
            atomic_write_json (session_path r.session_after.task_id)
                (session_to_json r.session_after) fs,
            save_session-next input.session r.session_after fs there m.task next,
          )
        ]
