-- ===== src/Agent/Moves.antt =====
-- How one event moves the session of an agent.
pub mod Steps
use blackboard_coordination.Base.{
  String, ◌≡◌, refl, ap, ◌∙◌, Bool, true, false, Option, none, some, List, [], ◌∷◌, ◌==◌,
  find_first, map, ◌⊎◌, inl, inr, if◌then◌else◌,
}
use blackboard_coordination.Base.Int.{ℤ, pos, negsuc, ◌+ℤ◌}
use blackboard_coordination.Python.Result.{Result, ok, raised, ◌>>=◌}
use blackboard_coordination.Python.Value.{
  Builtins, Value, Fields, null, dict, empty, float, list, nil, zero_float, get_or, index, to_int,
  to_str, to_float,
}
use blackboard_coordination.View.Match.{iterate, int_field}
use blackboard_coordination.Policy.Data.{RoleSlot, AssignmentSnapshot}
use blackboard_coordination.Policy.Violations.{slot_map}
use blackboard_coordination.Policy.Bids.{Arithmetic, EligibilityBidEngine, make_bid}
use blackboard_coordination.View.Match.{to_dict}
use blackboard_coordination.Sessions.Outbox.{Digest}
use blackboard_coordination.Sessions.Tasks.Session.{TaskSession, IntentSession}
use blackboard_coordination.Agent.Intents.{
  JsonText, SubmitActionIntentPayload, build_submit_payload,
}
use blackboard_coordination.Agent.Loop.{
  LoopInput, StepResult, submit_action_intent, no_effect, bumped, is_replayed, proposed,
  take_assignment, with_references, on_action_intent, on_receipt, on_safety_intercept,
  on_assignment_completed, on_replan, on_end, on_estop, after_intent, after_receipt,
  after_intercept, after_completion, or_no_view,
}
use blackboard_coordination.Agent.Rounds.{
  place_bid, answer_round, on_round_opened, role_slots_of, wanted, round_with,
}
use blackboard_coordination.Agent.Assigned.{
  follow_plan, compare_plan, on_assigned, assignments_from, all_current, assignments_by_id,
  following,
}
use blackboard_coordination.Agent.Step.{agent_step}

-- The step asks for the action of `p` to be done.
abbrev pub Submits : StepResult → SubmitActionIntentPayload → Type 0
Submits r p = r.effects ≡ submit_action_intent p ∷ []

-- What a step does to the session: it keeps it, or raises its version by one; it keeps its task;
-- and a step that submits an intent had not gone on from proposing it, and is proposing it now.
pub record Moves (s : TaskSession) (r : StepResult) : Type 0 where
  pub version :
      (r.session_after ≡ s) ⊎ (r.session_after.session_version ≡ s.session_version +ℤ pos 1)
  pub task : r.session_after.task_id ≡ s.task_id
  pub submits :
      (p : SubmitActionIntentPayload)
      → Submits r p
      → (is_replayed s.current_intent p.intent.intent_id ≡ false)
        × (r.session_after.current_intent ≡ some (proposed p))

no_submission : (p : SubmitActionIntentPayload) → ¬ ([] ≡ submit_action_intent p ∷ [])
no_submission p h = cc

-- The session is kept.
pub stays : (s : TaskSession) (b : Bool) → Moves s (no_effect s b)
stays s b = record { version = inl refl; task = refl; submits = λ p h. absurd (no_submission p h) }

-- The version is raised, and nothing is submitted.
advances :
    (s t : TaskSession) (r : StepResult)
    → r.session_after ≡ bumped t
    → t.session_version ≡ s.session_version
    → t.task_id ≡ s.task_id
    → ((p : SubmitActionIntentPayload) → ¬ (Submits r p))
    → Moves s r
advances s t r after version task nothing = record {
  version = inr (ap (λ (u : TaskSession). u.session_version) after ∙ ap (λ n. n +ℤ pos 1) version);
  task = ap (λ (u : TaskSession). u.task_id) after ∙ task;
  submits = λ p h. absurd (nothing p h);
}

-- What holds of a computation's result, if it returns one.
abbrev pub Gives : TaskSession → Result StepResult → Type 0
Gives s m = (r : StepResult) → m ≡ ok r → Moves s r

pub Gives-ok : (s : TaskSession) (r : StepResult) → Moves s r → Gives s (ok r)
Gives-ok s r h q same = let e : r ≡ q = cc in rw (← e) h

pub Gives-bind {ℓ} :
    {A : Type ℓ} (s : TaskSession) (m : Result A) (k : A → Result StepResult)
    → ((a : A) → Gives s (k a))
    → Gives s (m >>= k)
Gives-bind s (raised x) k h r q = cc
Gives-bind s (ok a) k h r q = h a r q

pub Gives-if :
    (s : TaskSession) (b : Bool) (m n : Result StepResult)
    → Gives s m
    → Gives s n
    → Gives s (if b then m else n)
Gives-if s true m n g h = g
Gives-if s false m n g h = h

pub Gives-stays : (s : TaskSession) (b : Bool) → Gives s (ok (no_effect s b))
Gives-stays s b = Gives-ok s (no_effect s b) (stays s b)

-- A change of the session that raises the version, without an effect.
pub Gives-advances :
    (s t : TaskSession)
    → t.session_version ≡ s.session_version
    → t.task_id ≡ s.task_id
    → Gives s (ok (no_effect (bumped t) true))
Gives-advances s t version task =
    Gives-ok s (no_effect (bumped t) true)
      (advances s t (no_effect (bumped t) true) refl version task (λ p h. no_submission p h))

pub Moves-if :
    (s : TaskSession) (b : Bool) (q r : StepResult)
    → Moves s q
    → Moves s r
    → Moves s (if b then q else r)
Moves-if s true q r g h = g
Moves-if s false q r g h = h

pub Moves-advances :
    (s t : TaskSession)
    → t.session_version ≡ s.session_version
    → t.task_id ≡ s.task_id
    → Moves s (no_effect (bumped t) true)
Moves-advances s t version task =
    advances s t (no_effect (bumped t) true) refl version task (λ p h. no_submission p h)

pub take_assignment-Moves :
    ⦃py : Builtins⦄ (references : Value) (s : TaskSession) (revision epoch : ℤ)
    (a : AssignmentSnapshot) (submit : SubmitActionIntentPayload)
    → Moves s (take_assignment references (following revision epoch s) a submit)
unfolding take_assignment
take_assignment-Moves references s revision epoch a submit =
    by_intent (is_replayed s.current_intent submit.intent.intent_id) refl
  where
    t : TaskSession
    t = record (following revision epoch s) { state = "active"; assignment = some a }

    by_intent :
        (b : Bool)
        → is_replayed s.current_intent submit.intent.intent_id ≡ b
        → Moves s (
            if b
            then no_effect
                (record (following revision epoch s) { state = "active"; assignment = some a })
                true
            else record {
              effects = submit_action_intent (with_references references submit) ∷ [];
              session_after = record (following revision epoch s) {
                state = "active";
                assignment = some a;
                current_intent = some (proposed submit);
              };
              consume_input = true;
            })
    by_intent true q = record {
      version = inr refl;
      task = refl;
      submits = λ p h. absurd (no_submission p h);
    }
    by_intent false q = record {
      version = inr refl;
      task = refl;
      submits =
          λ p h. let same : with_references references submit ≡ p = cc in rw (← same) (q, refl);
    }

pub after_intent-Moves :
    ⦃py : Builtins⦄ (content : Fields) (s : TaskSession) (i : Option IntentSession)
    → Moves s (after_intent content s i)
unfolding after_intent
after_intent-Moves content s none = stays s true
after_intent-Moves content s (some i) =
    Moves-if s _ _ _ (Moves-advances s _ refl refl) (stays s true)

pub after_receipt-Moves :
    ⦃py : Builtins⦄ (content : Fields) (s : TaskSession) (i : Option IntentSession)
    → Moves s (after_receipt content s i)
unfolding after_receipt
after_receipt-Moves content s none = stays s true
after_receipt-Moves content s (some i) =
    Moves-if s _ _ _ (Moves-advances s _ refl refl) (stays s true)

pub after_intercept-Moves :
    ⦃py : Builtins⦄ (content : Fields) (s : TaskSession) (i : Option IntentSession)
    → Moves s (after_intercept content s i)
unfolding after_intercept
after_intercept-Moves content s none = stays s true
after_intercept-Moves content s (some i) =
    Moves-if s _ _ _ (Moves-advances s _ refl refl) (stays s true)

pub after_completion-Moves :
    ⦃py : Builtins⦄ (content : Fields) (s : TaskSession) (a : Option AssignmentSnapshot)
    → Moves s (after_completion content s a)
unfolding after_completion
after_completion-Moves content s none = stays s true
after_completion-Moves content s (some a) =
    Moves-if s _ _ _ (Moves-advances s _ refl refl) (stays s true)

pub on_estop-Moves :
    ⦃py : Builtins⦄ (device_id : String) (content : Fields) (s : TaskSession)
    → Moves s (on_estop device_id content s)
unfolding on_estop
on_estop-Moves device_id content s = Moves-if s _ _ _ (Moves-advances s _ refl refl) (stays s true)

pub on_end-Moves : ⦃py : Builtins⦄ (state : String) (s : TaskSession) → Moves s (on_end state s)
unfolding on_end
on_end-Moves state s = record { version = inr refl; task = refl; submits = λ p h. cc }
