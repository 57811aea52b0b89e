-- ===== src/Board/State.antt =====
-- blackboard/board.py: the state of a `Blackboard`, its leases and the results of `append`.
use blackboard_coordination.Base.{
  ℕ, String, Bool, true, Option, none, some, List, [], ◌∷◌, ◌==◌, length, if◌then◌else◌,
}
use blackboard_coordination.Base.Dict.{Assoc, lookup, insert, remove}
use blackboard_coordination.Contracts.{Event, StoredEvent, AppendResult, AppendStatus}
use blackboard_coordination.Board.Contract.{TerminalKey, key_eq}

-- A handler is what it does with an event at an offset: the text of the exception that it raises,
-- or `none`. `types` is the set that it asked for (`none`: all).
pub record Subscriber : Type 0 where
  pub sid : String
  pub handler : Event → ℕ → Option String
  pub types : Option (List String)

pub record Board : Type 0 where
  pub events : List Event
  pub idempotency_index : Assoc StoredEvent
  pub event_id_index : Assoc StoredEvent
  pub terminal_index : List (TerminalKey × StoredEvent)
  pub subscribers : List Subscriber
  pub subscriber_errors : Assoc String
  pub leases : Assoc String
  pub sub_id : ℕ

-- `Blackboard.__init__`
abbrev pub new_board : Board
new_board = record {
  events = [];
  idempotency_index = [];
  event_id_index = [];
  terminal_index = [];
  subscribers = [];
  subscriber_errors = [];
  leases = [];
  sub_id = 0;
}

unfoldable pub high_watermark : Board → ℕ
high_watermark b = length b.events

unfoldable pub terminal_at : TerminalKey → List (TerminalKey × StoredEvent) → Option StoredEvent
terminal_at key [] = none
terminal_at key ((k, stored) ∷ rest) = if key_eq k key then some stored else terminal_at key rest

-- `claim`
unfoldable pub claim : String → String → Board → Board × Bool
claim resource device_id b = elim (lookup resource b.leases) [
  | none ↦ (record b { leases = insert resource device_id b.leases }, true)
  | some holder ↦ (b, holder == device_id)
]

-- `release`
unfoldable pub release : String → String → Board → Board
release resource device_id b = elim (lookup resource b.leases) [
  | none ↦ b
  | some holder ↦ if holder == device_id then record b { leases = remove resource b.leases } else b
]

-- `_result_for_existing`
unfoldable pub result_for_existing :
    AppendStatus → StoredEvent → String → Option String → AppendResult
result_for_existing status existing event_id reason = record {
  status = status;
  offset = some existing.offset;
  version = some existing.event.version;
  event_id = event_id;
  existing_event_id = some existing.event.id;
  reason_code = reason;
}

-- The results that carry no position.
unfoldable pub rejection : String → String → AppendResult
rejection event_id code = record {
  status = AppendStatus.rejected;
  offset = none;
  version = none;
  event_id = event_id;
  existing_event_id = none;
  reason_code = some code;
}
