-- ===== src/Board/Append.antt =====
-- blackboard/board.py: `append`, with the delivery to the subscribers that follows it.
pub mod Cases
pub mod Idempotence
use blackboard_coordination.Base.{
  ℕ, ◌+◌, String, Bool, true, false, ◌&&◌, Option, none, some, List, [], ◌∷◌, ◌++◌, member, length,
  if◌then◌else◌,
}
use blackboard_coordination.Base.Dict.{Assoc, lookup, insert}
use blackboard_coordination.Python.Result.{Result, ok, raised, ◌>>=◌}
use blackboard_coordination.Python.Value.{Builtins, Float, float_lt, zero_float}
use blackboard_coordination.Contracts.{
  Event, StoredEvent, AppendResult, AppendStatus, appended, duplicate_same, key_conflict,
  terminal_conflict,
}
use blackboard_coordination.Board.Contract.{
  TerminalKey, key_eq, same_event, terminal_key, terminal_types, validate_event,
}
use blackboard_coordination.Board.State.{
  Board, Subscriber, result_for_existing, rejection, terminal_at,
}
use blackboard_coordination.Board.Gate.{validate_v2_transition}

-- The committed event that an append runs into, and what is answered.
pub record Existing : Type 0 where
  pub status : AppendStatus
  pub stored : StoredEvent
  pub event_id : String
  pub reason : Option String

abbrev duplicate : StoredEvent → Existing
duplicate stored = record {
  status = duplicate_same;
  stored = stored;
  event_id = stored.event.id;
  reason = none;
}

abbrev conflict : AppendStatus → StoredEvent → String → String → Existing
conflict status stored event_id reason = record {
  status = status;
  stored = stored;
  event_id = event_id;
  reason = some reason;
}

-- What the caller of `append` sees: the board, the result, and its own event, which is stamped.
pub record Outcome : Type 0 where
  pub board : Board
  pub result : AppendResult
  pub caller : Event

-- `_stamp_caller`
unfoldable pub stamp_caller : Event → Event → Event
stamp_caller target committed = record target { version = committed.version; ts = committed.ts }

abbrev is_asked : Option (List String) → String → Bool
is_asked none kind = true
is_asked (some types) kind = member kind types

-- The loop over the subscribers, after the lock is released.
unfoldable pub deliver : List Subscriber → Event → ℕ → Board → Board
deliver [] e offset b = b
deliver (s ∷ ss) e offset b = deliver ss e offset (
    if is_asked s.types e.kind
    then elim (s.handler e offset) [
      | none ↦ b
      | some error ↦ record b { subscriber_errors = insert s.sid error b.subscriber_errors }
    ]
    else b)

abbrev index_key : Option String → StoredEvent → Assoc StoredEvent → Assoc StoredEvent
index_key none stored m = m
index_key (some key) stored m = insert key stored m

abbrev index_terminal :
    Option TerminalKey
    → StoredEvent
    → List (TerminalKey × StoredEvent)
    → List (TerminalKey × StoredEvent)
index_terminal none stored m = m
index_terminal (some key) stored m = (key, stored) ∷ m

-- The event as it is committed.
abbrev pub committed_at : Float → Event → Board → Event
committed_at now candidate b = record candidate { version = length b.events + 1; ts = now }

-- The event goes to the end of the stream and into the indexes.
unfoldable pub commit : Float → Event → Option TerminalKey → Board → Board
commit now candidate key b =
    let e = committed_at now candidate b in
    let stored : StoredEvent = record { offset = length b.events; event = e } in
    record b {
      events = b.events ++ e ∷ [];
      idempotency_index = index_key candidate.idempotency_key stored b.idempotency_index;
      event_id_index = insert candidate.id stored b.event_id_index;
      terminal_index = index_terminal key stored b.terminal_index;
    }

abbrev pub appended_result : Event → Board → AppendResult
appended_result e b = record {
  status = appended;
  offset = some (length b.events);
  version = some (length b.events + 1);
  event_id = e.id;
  existing_event_id = none;
  reason_code = none;
}

abbrev or_else : Result (Option Existing) → Result (Option Existing) → Result (Option Existing)
or_else (ok none) k = k
or_else (ok (some x)) k = ok (some x)
or_else (raised e) k = raised e

abbrev same_key : TerminalKey → Option TerminalKey → Bool
same_key key none = false
same_key key (some key') = key_eq key key'

by_id : Board → Event → Option Existing
by_id b candidate = elim (lookup candidate.id b.event_id_index) [
  | none ↦ none
  | some stored ↦ some (
      if same_event candidate stored.event
      then duplicate stored
      else conflict key_conflict stored candidate.id "EVENT_ID_REUSED_WITH_DIFFERENT_EVENT")
]

by_terminal : Board → Event → Option TerminalKey → Option Existing
by_terminal b candidate none = none
by_terminal b candidate (some key) = elim (terminal_at key b.terminal_index) [
  | none ↦ none
  | some stored ↦ some (
      if same_event candidate stored.event
      then duplicate stored
      else conflict terminal_conflict stored candidate.id "TASK_TERMINAL_ALREADY_COMMITTED")
]

module _ ⦃py : Builtins⦄ where
  -- `terminal_key is not None and terminal_key == _terminal_key(existing.event) and ...`
  abbrev both_terminal : Option TerminalKey → Event → Result Bool
  both_terminal none existing = ok false
  both_terminal (some key) existing = do
    key' ← terminal_key existing
    ok (same_key key key' && member existing.kind terminal_types)

  key_reused : Event → Option TerminalKey → StoredEvent → Result Existing
  key_reused candidate key stored =
      if same_event candidate stored.event then ok (duplicate stored) else (do
        terminal ← both_terminal key stored.event
        ok (
            if terminal
            then conflict terminal_conflict stored candidate.id "TASK_TERMINAL_ALREADY_COMMITTED"
            else conflict key_conflict stored candidate.id
                "IDEMPOTENCY_KEY_REUSED_WITH_DIFFERENT_EVENT"))

  found_by_key : Event → Option TerminalKey → Option StoredEvent → Result (Option Existing)
  unfolding key_reused
  found_by_key candidate key none = ok none
  found_by_key candidate key (some stored) = do x ← key_reused candidate key stored; ok (some x)

  by_idempotency_key : Board → Event → Option TerminalKey → Option String → Result (Option Existing)
  unfolding found_by_key
  by_idempotency_key b candidate key none = ok none
  by_idempotency_key b candidate key (some k) =
      found_by_key candidate key (lookup k b.idempotency_index)

  -- The three look-ups in the indexes, in order.
  unfoldable pub find_existing : Board → Event → Option TerminalKey → Result (Option Existing)
  unfolding by_idempotency_key by_terminal by_id
  find_existing b candidate key =
      or_else (by_idempotency_key b candidate key candidate.idempotency_key)
        (or_else (ok (by_terminal b candidate key)) (ok (by_id b candidate)))

  abbrev stamp_if_same : Existing → Event → Event
  stamp_if_same x e = elim x.status [ duplicate_same ↦ stamp_caller e x.stored.event | _ ↦ e ]

  refuse : Board → Event → String → Outcome
  refuse b e code = record { board = b; result = rejection e.id code; caller = e }

  answer_existing : Board → Event → Existing → Outcome
  answer_existing b e x = record {
    board = b;
    result = result_for_existing x.status x.stored x.event_id x.reason;
    caller = stamp_if_same x e;
  }

  -- The clock is read, and the event is committed and delivered.
  publish_event : Float → Board → Event → Option TerminalKey → Outcome
  unfolding refuse
  publish_event now b e key =
      if float_lt now zero_float then refuse b e "NEGATIVE_SERVER_TIME" else record {
        board = deliver b.subscribers (committed_at now e b) (length b.events) (commit now e key b);
        result = appended_result e b;
        caller = stamp_caller e (committed_at now e b);
      }

  admit : Float → Board → Event → Option TerminalKey → Result Outcome
  unfolding publish_event refuse
  admit now b e key = do
    rejected ← validate_v2_transition b.events e
    ok (elim rejected [ some code ↦ refuse b e code | none ↦ publish_event now b e key ])

  place : Float → Board → Event → Option TerminalKey → Result Outcome
  unfolding admit answer_existing
  place now b e key = do
    existing ← find_existing b e key
    elim existing [ some x ↦ ok (answer_existing b e x) | none ↦ admit now b e key ]

  -- `append`, when the clock shows `now`
  unfoldable pub append : Float → Board → Event → Result Outcome
  unfolding place refuse
  append now b e = do
    rejected ← validate_event e
    elim rejected [
      | some code ↦ ok (refuse b e code)
      | none ↦ do key ← terminal_key e; place now b e key
    ]
