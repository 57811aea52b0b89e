-- ===== src/View/Actions.antt =====
-- blackboard/view.py: `_action_view`.
use blackboard_coordination.Base.{
  String, not, ◌&&◌, none, some, List, [], ◌∷◌, ◌++◌, ◌==◌, ltb, if◌then◌else◌, member,
}
use blackboard_coordination.Base.Int.{ℤ}
use blackboard_coordination.Base.Dict.{Assoc, lookup, insert, by_key}
use blackboard_coordination.Python.Result.{Result, ok, ◌>>=◌}
use blackboard_coordination.Python.Value.{Builtins}
use blackboard_coordination.Contracts.{Event}
use blackboard_coordination.View.Match.{text_field, matches_task}

-- The events stand for the records made of them.
pub record ActionView : Type 0 where
  pub intents_by_id : Assoc Event
  pub receipts_by_intent : Assoc Event
  pub intercepts_by_intent : Assoc (List Event)

insert_version : Event → List Event → List Event
insert_version e [] = e ∷ []
insert_version e (f ∷ fs) = if ltb f.version e.version then f ∷ insert_version e fs else e ∷ f ∷ fs

-- `sorted(records, key=lambda item: item["event_version"])`
sort_versions : List Event → List Event
unfolding insert_version
sort_versions [] = []
sort_versions (e ∷ es) = insert_version e (sort_versions es)

sort_each : Assoc (List Event) → Assoc (List Event)
unfolding sort_versions
sort_each [] = []
sort_each ((k, es) ∷ m) = (k, sort_versions es) ∷ sort_each m

abbrev list_at : String → Assoc (List Event) → List Event
list_at key m = elim (lookup key m) [ none ↦ [] | some es ↦ es ]

-- The three branches for an event with an intent id.
unfoldable pub on_action_event : ActionView → Event → String → ActionView
on_action_event v event intent_id =
    if event.kind == "action_intent"
    then record v { intents_by_id = insert intent_id event v.intents_by_id }
    else if event.kind == "receipt"
    then record v { receipts_by_intent = insert intent_id event v.receipts_by_intent }
    else record v {
      intercepts_by_intent =
          insert intent_id (list_at intent_id v.intercepts_by_intent ++ event ∷ [])
            v.intercepts_by_intent;
    }

module _ ⦃py : Builtins⦄ where
  unfoldable pub action_step : String → ℤ → ActionView → Event → Result ActionView
  action_step task_id revision v event = do
    matches ← matches_task event task_id revision
    let intent_id = text_field event.content "intent_id"
    ok (
        if matches
          && member event.kind ("action_intent" ∷ "receipt" ∷ "safety_intercept" ∷ [])
          && not (intent_id == "")
        then on_action_event v event intent_id
        else v)

  unfoldable pub fold_actions : String → ℤ → ActionView → List Event → Result ActionView
  fold_actions task_id revision v [] = ok v
  fold_actions task_id revision v (event ∷ events) = do
    v' ← action_step task_id revision v event
    fold_actions task_id revision v' events

  -- `_action_view`, without the task's id and revision and the watermark that it echoes
  unfoldable pub action_view : List Event → String → ℤ → Result ActionView
  unfolding sort_each
  action_view events task_id revision = do
    v ←
        fold_actions task_id revision
          (record { intents_by_id = []; receipts_by_intent = []; intercepts_by_intent = [] }) events
    ok (record {
      intents_by_id = by_key v.intents_by_id;
      receipts_by_intent = by_key v.receipts_by_intent;
      intercepts_by_intent = by_key (sort_each v.intercepts_by_intent);
    })
