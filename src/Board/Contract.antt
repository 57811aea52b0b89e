-- ===== src/Board/Contract.antt =====
-- blackboard/board.py: the checks of an event before the lock is taken, its canonical text, and
-- its terminal key.
use blackboard_coordination.Base.{
  String, Bool, true, false, not, ◌&&◌, Option, none, some, List, [], ◌∷◌, ◌==◌, member,
  if◌then◌else◌, ◌≡◌, ◌↔◌, arith, eq_iff,
}
use blackboard_coordination.Base.Int.{ℤ, pos, eq_ℤ, eq_ℤ_iff}
use blackboard_coordination.Base.Dict.{Assoc, lookup}
use blackboard_coordination.Python.Result.{
  Result, ok, raised, type_error, value_error, overflow_error, key_error, attribute_error, Check,
  pass, reject_if, ◌and_then◌, ◌>>=◌,
}
use blackboard_coordination.Python.Value.{
  Builtins, Value, Float, null, float, str, dict, entry, empty, is_finite, float_lt, float_le,
  zero_float, one_float,
}
use blackboard_coordination.Python.Json.{sort_keys, same_text}
use blackboard_coordination.Contracts.{Event, event_types, ledgers}
use blackboard_coordination.Validation.{validate_event_contract}
use blackboard_coordination.View.Match.{text_field, int_field}

-- `_EXPECTED_LEDGERS`
abbrev pub expected_ledgers : Assoc String
expected_ledgers =
    ("task_posted", "task")
    ∷ ("bid_round_opened", "task")
    ∷ ("bid", "task")
    ∷ ("handoff", "task")
    ∷ ("ask_help", "task")
    ∷ ("task_assigned", "task")
    ∷ ("assignment_completed", "task")
    ∷ ("task_replan", "task")
    ∷ ("task_done", "task")
    ∷ ("task_failed", "task")
    ∷ ("clue", "evidence")
    ∷ ("fusion", "evidence")
    ∷ ("action_intent", "receipt")
    ∷ ("receipt", "receipt")
    ∷ ("safety_intercept", "receipt")
    ∷ ("estop", "receipt")
    ∷ ("claim", "receipt")
    ∷ ("yield", "receipt")
    ∷ ("auth_point", "human")
    ∷ ("auth_decision", "human")
    ∷ []

-- `_TERMINAL_TYPES`
abbrev pub terminal_types : List String
terminal_types = "task_done" ∷ "task_failed" ∷ []

abbrev optional_text : Option String → Value
optional_text none = null
optional_text (some s) = str s

abbrev optional_float : Option Float → Value
optional_float none = null
optional_float (some x) = float x

-- `_canonical_event`: the server-owned time and version and the trace carrier are left out.
unfoldable pub canonical_event : Event → Value
canonical_event e = sort_keys (
    dict (
      entry "id" (str e.id) (
        entry "type" (str e.kind) (
          entry "ledger" (str e.ledger) (
            entry "content" (dict e.content) (
              entry "source" (str e.origin) (
                entry "confidence" (optional_float e.confidence) (
                  entry "ttl" (optional_float e.ttl) (
                    entry "idempotency_key" (optional_text e.idempotency_key)
                      (entry "extra" (dict e.extra) empty))))))))))

-- `canonical == _canonical_event(existing.event)`
unfoldable pub same_event : Event → Event → Bool
same_event a b = same_text (canonical_event a) (canonical_event b)

abbrev pub TerminalKey : Type 0
TerminalKey = String × ℤ

abbrev pub key_eq : TerminalKey → TerminalKey → Bool
key_eq (s, n) (t, m) = s == t && eq_ℤ n m

pub key_eq_iff : (a b : TerminalKey) → (key_eq a b ≡ true) ↔ (a ≡ b)
key_eq_iff (s, n) (t, m) = ground (arith, eq_iff s t, eq_ℤ_iff n m)

-- `try: revision = int(...) except (TypeError, ValueError): return None`
abbrev key_or_none : String → Result ℤ → Result (Option TerminalKey)
key_or_none task_id (ok n) = ok (some (task_id, n))
key_or_none task_id (raised type_error) = ok none
key_or_none task_id (raised value_error) = ok none
key_or_none task_id (raised overflow_error) = raised overflow_error
key_or_none task_id (raised key_error) = raised key_error
key_or_none task_id (raised attribute_error) = raised attribute_error

abbrev pub ledger_matches : String → Option String → Bool
ledger_matches ledger none = true
ledger_matches ledger (some expected) = ledger == expected

check_confidence : Option Float → Check
check_confidence none = pass
check_confidence (some x) =
    reject_if (not (is_finite x)) "CONFIDENCE_INVALID"
    and_then reject_if (not (float_le zero_float x && float_le x one_float))
        "CONFIDENCE_OUT_OF_RANGE"

check_ttl : Option Float → Check
check_ttl none = pass
check_ttl (some x) =
    reject_if (not (is_finite x)) "TTL_INVALID"
    and_then reject_if (float_lt x zero_float) "TTL_NEGATIVE"

check_key : Option String → Check
check_key none = pass
check_key (some key) = reject_if (key == "") "IDEMPOTENCY_KEY_INVALID"

-- The tests of `_validate_event` that read the envelope alone; those of the declared field types
-- are true of every event.
unfoldable pub validate_envelope : Event → Check
unfolding check_confidence check_ttl check_key lookup
validate_envelope e =
    reject_if (e.id == "") "EVENT_ID_REQUIRED"
    and_then reject_if (e.origin == "") "EVENT_SOURCE_REQUIRED"
    and_then check_key e.idempotency_key
    and_then reject_if (not (member e.kind event_types)) "EVENT_TYPE_UNKNOWN"
    and_then reject_if (not (member e.ledger ledgers)) "LEDGER_INVALID"
    and_then reject_if (not (ledger_matches e.ledger (lookup e.kind expected_ledgers)))
        "EVENT_LEDGER_MISMATCH"
    and_then check_confidence e.confidence
    and_then check_ttl e.ttl

abbrev pub is_missing : Option TerminalKey → Bool
is_missing none = true
is_missing (some key) = false

module _ ⦃py : Builtins⦄ where
  -- `_terminal_key`
  unfoldable pub terminal_key : Event → Result (Option TerminalKey)
  terminal_key e =
      let task_id = text_field e.content "task_id" in
      if not (member e.kind terminal_types)
      then ok none
      else if task_id == ""
      then ok none
      else key_or_none task_id (int_field e.content "task_revision" (pos 1))

  check_terminal : Event → Check
  check_terminal e = do
    key ← terminal_key e
    reject_if (is_missing key && member e.kind terminal_types)
        "TERMINAL_TASK_ID_OR_REVISION_INVALID"

  -- `_validate_event`
  unfoldable pub validate_event : Event → Check
  unfolding check_terminal
  validate_event e =
      validate_envelope e
      and_then check_terminal e
      and_then validate_event_contract e.kind e.content
