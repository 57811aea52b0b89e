-- ===== src/View/Match.antt =====
-- blackboard/view.py: which events belong to a task and a revision, and the reads of payloads
-- that the folds share.

use blackboard_coordination.Base.{
  String, Bool, true, false, not, ◌&&◌, Option, none, some, List, [], ◌∷◌, map, ◌==◌, if◌then◌else◌,
}
use blackboard_coordination.Base.Int.{ℤ, pos, eq_ℤ, ltb_ℤ}
use blackboard_coordination.Base.Dict.{Assoc, lookup, insert}
use blackboard_coordination.Python.Result.{
  Result, ok, raised, type_error, value_error, overflow_error, key_error, attribute_error, ◌>>=◌,
}
use blackboard_coordination.Python.Value.{
  Builtins, Value, Fields, int, str, list, dict, empty, entry, get_or, has, items, keys, to_int,
  to_str, put,
}
use blackboard_coordination.Contracts.{Event}

-- `for item in value`
unfoldable pub iterate : Value → Result (List Value)
iterate (list xs) = ok (items xs)
iterate (dict d) = ok (map str (keys d))
iterate (str s) = ok (chars s)
  where
    chars : String → List Value
    chars String.[] = []
    chars (String.◌∷◌ c t) = str (String.◌∷◌ c String.[]) ∷ chars t
iterate _ = raised type_error

-- `item.get(...)` needs a dict.
abbrev pub as_dict : Value → Result Fields
as_dict (dict d) = ok d
as_dict _ = raised attribute_error

-- The key and the value of a pair: a sequence of two. A key that is hashable and no text is no key
-- of a `Fields`, and raises here.
unfoldable pub pair_of : List Value → Result (String × Value)
pair_of (str key ∷ v ∷ []) = ok (key, v)
pair_of (key ∷ v ∷ []) = raised type_error
pair_of _ = raised value_error

unfoldable pub dict_of_pairs : Fields → List Value → Result Fields
unfolding iterate pair_of
dict_of_pairs d [] = ok d
dict_of_pairs d (v ∷ vs) = do
  elements ← iterate v
  (key, item) ← pair_of elements
  dict_of_pairs (put key item d) vs

-- `dict(v)` of a dict, or of a sequence of pairs
unfoldable pub to_dict : Value → Result Fields
unfolding dict_of_pairs iterate
to_dict (dict d) = ok d
to_dict v = do elements ← iterate v; dict_of_pairs empty elements

-- `try: int(v) except (TypeError, ValueError): default`
abbrev pub or_default : Result ℤ → ℤ → Result ℤ
or_default (ok n) default = ok n
or_default (raised type_error) default = ok default
or_default (raised value_error) default = ok default
or_default (raised overflow_error) default = raised overflow_error
or_default (raised key_error) default = raised key_error
or_default (raised attribute_error) default = raised attribute_error

-- `dict or {}` of an optional dict, and its truth
abbrev pub or_empty : Option Fields → Fields
or_empty none = empty
or_empty (some d) = d

abbrev pub is_filled : Fields → Bool
is_filled empty = false
is_filled (entry _ _ _) = true

module _ ⦃py : Builtins⦄ where
  -- `str(content.get(name, ""))`
  unfoldable pub text_field : Fields → String → String
  unfolding to_str
  text_field content name = to_str (get_or content name (str ""))

  -- `int(content.get(name, default))`
  unfoldable pub int_field : Fields → String → ℤ → Result ℤ
  unfolding to_int
  int_field content name default = to_int (get_or content name (int default))

  -- `_revision`
  unfoldable pub revision : Fields → Result ℤ
  revision content = or_default (int_field content "task_revision" (pos 1)) (pos 1)

  -- `_matches_task`, with a revision given and `allow_missing_revision` false
  unfoldable pub matches_task : Event → String → ℤ → Result Bool
  matches_task event task_id task_revision =
      if text_field event.content "task_id" == task_id
      then (do r ← revision event.content; ok (eq_ℤ r task_revision))
      else ok false

  abbrev max_ℤ : ℤ → ℤ → ℤ
  max_ℤ a b = if ltb_ℤ a b then b else a

  abbrev pub latest_or_one : String → Assoc ℤ → ℤ
  latest_or_one task_id latest = elim (lookup task_id latest) [ none ↦ pos 1 | some r ↦ r ]

  -- `latest_posted`, after one more event
  unfoldable pub note_posted : Assoc ℤ → Event → Result (Assoc ℤ)
  note_posted latest event =
      let task_id = text_field event.content "task_id" in
      if event.kind == "task_posted" && not (task_id == "")
      then (do
        r ← revision event.content
        ok (insert task_id (max_ℤ (latest_or_one task_id latest) r) latest))
      else ok latest

  unfoldable pub effective_revision : Assoc ℤ → Event → Result ℤ
  effective_revision latest event =
      if has event.content "task_revision"
      then revision event.content
      else ok (latest_or_one (text_field event.content "task_id") latest)

  -- `_effective_task_revisions`, from the revisions posted so far
  unfoldable pub effective_task_revisions : Assoc ℤ → List Event → Result (List ℤ)
  effective_task_revisions latest [] = ok []
  effective_task_revisions latest (event ∷ events) = do
    posted ← note_posted latest event
    r ← effective_revision posted event
    rest ← effective_task_revisions posted events
    ok (r ∷ rest)
