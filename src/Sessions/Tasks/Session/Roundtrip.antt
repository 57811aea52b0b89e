-- ===== src/Sessions/Tasks/Session/Roundtrip.antt =====
-- A task session that is written and read back.
use blackboard_coordination.Base.{
  String, ◌≡◌, refl, ap, true, Option, none, some, List, [], ◌∷◌, member, map,
}
use blackboard_coordination.Python.Result.{ok}
use blackboard_coordination.Python.Value.{Builtins, items, to_str, to_int, str}
use blackboard_coordination.View.Match.{iterate, text_field, int_field}
use blackboard_coordination.Policy.Data.{AssignmentSnapshot}
use blackboard_coordination.Sessions.Codec.{optional, optional_text}
use blackboard_coordination.View.Match.{to_dict}
use blackboard_coordination.Sessions.Tasks.Session.{
  session_states, intent_states, IntentSession, TaskSession, texts_json, assignment_json,
  intent_json, session_to_json, to_state, assignment_from_dict, optional_assignment,
  intent_from_dict, optional_intent, session_from_json,
}

-- The intent, where there is one, is in a state of the enumeration.
abbrev pub IsIntentKnown : Option IntentSession → Type 0
IsIntentKnown none = Unit {0}
IsIntentKnown (some i) = member i.state intent_states ≡ true

-- The states are members of their enumerations.
pub record IsKnown (s : TaskSession) : Type 0 where
  pub state : member s.state session_states ≡ true
  pub intent : IsIntentKnown s.current_intent

optional_text-str : (s : Option String) → optional_text (optional str s) ≡ ok s
unfolding optional_text
optional_text-str none = refl
optional_text-str (some s) = refl

module _ ⦃py : Builtins⦄ where
  texts_json-texts : (ss : List String) → map to_str (items (texts_json ss)) ≡ ss
  unfolding to_str
  texts_json-texts [] = refl
  texts_json-texts (s ∷ ss) = ap (λ r. s ∷ r) (texts_json-texts ss)

  optional_assignment-json :
      (a : Option AssignmentSnapshot) → optional_assignment (optional assignment_json a) ≡ ok a
  unfolding assignment_from_dict int_field to_int text_field to_str iterate to_dict
  optional_assignment-json none = refl
  optional_assignment-json (some a) = rw (texts_json-texts a.allowed_actions) refl

  optional_intent-json :
      (i : Option IntentSession) → IsIntentKnown i → optional_intent (optional intent_json i) ≡ ok i
  unfolding intent_from_dict to_state to_str
  optional_intent-json none known = refl
  optional_intent-json (some i) known = rw (known, optional_text-str i.receipt_id) refl

  -- A session with known states reads back as it was.
  pub session_from_json-session_to_json :
      (s : TaskSession) → IsKnown s → session_from_json (session_to_json s) ≡ ok s
  unfolding session_from_json session_to_json intent_from_dict to_state to_str to_int int_field
  session_from_json-session_to_json s known =
      rw
        (
          known.state,
          optional_assignment-json s.assignment,
          optional_intent-json s.current_intent known.intent,
          optional_text-str s.last_receipt_id,
        )
        refl
