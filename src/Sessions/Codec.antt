-- ===== src/Sessions/Codec.antt =====
-- coordination/file_session_store.py: events and records as JSON values, and back.
pub mod Roundtrip
use blackboard_coordination.Base.{
  ℕ, String, Bool, true, false, not, Option, none, some, List, [], ◌∷◌, ◌==◌, member, map,
  if◌then◌else◌,
}
use blackboard_coordination.Base.Int.{ℤ, pos, pos_part}
use blackboard_coordination.Python.Result.{Result, ok, raised, type_error, value_error, ◌>>=◌}
use blackboard_coordination.Python.Value.{
  Builtins, Value, Float, Fields, null, int, float, str, list, nil, dict, empty, entry, finite,
  zero_float, get_or, index, to_str, to_int, to_float,
}
use blackboard_coordination.View.Match.{as_dict, to_dict}
use blackboard_coordination.Contracts.{Event, ledgers}

abbrev pub optional {ℓ} : {A : Type ℓ} → (A → Value) → Option A → Value
optional json none = null
optional json (some a) = json a

abbrev pub carrier_fields : List (String × String) → Fields
carrier_fields [] = empty
carrier_fields ((key, item) ∷ rest) = entry key (str item) (carrier_fields rest)

-- `event_to_dict`
unfoldable pub event_to_dict : Event → Fields
event_to_dict e = entry "id" (str e.id) (
    entry "type" (str e.kind) (
      entry "ledger" (str e.ledger) (
        entry "content" (dict e.content) (
          entry "source" (str e.origin) (
            entry "ts" (float zero_float) (
              entry "confidence" (optional float e.confidence) (
                entry "ttl" (optional float e.ttl) (
                  entry "version" (int (pos 0)) (
                    entry "idempotency_key" (optional str e.idempotency_key) (
                      entry "extra" (dict e.extra) (
                        entry "trace_carrier" (dict (carrier_fields e.trace_carrier))
                          empty)))))))))))

-- `Ledger(text)`
unfoldable pub to_ledger : String → Result String
to_ledger s = if member s ledgers then ok s else raised value_error

-- A field that is declared as an optional float. The code keeps whatever the file holds; a value
-- that is no number is not one of the declared type, and raises here.
unfoldable pub optional_float : Value → Result (Option Float)
optional_float null = ok none
optional_float (float x) = ok (some x)
optional_float (int n) = ok (some (finite n 0))
optional_float _ = raised type_error

-- The same for an optional text.
unfoldable pub optional_text : Value → Result (Option String)
optional_text null = ok none
optional_text (str s) = ok (some s)
optional_text _ = raised type_error

-- A record of an outbox.
pub record OutboxRecord : Type 0 where
  pub event : Event
  pub source_offset : Option ℤ

abbrev record_fields : Event → Option ℤ → Fields
record_fields e source_offset =
    entry "event" (dict (event_to_dict e))
      (entry "source_offset" (optional int source_offset) empty)

-- `_record_to_dict`
unfoldable pub record_to_dict : Event → Option ℤ → Value
unfolding event_to_dict
record_to_dict e source_offset = dict (record_fields e source_offset)

module _ ⦃py : Builtins⦄ where
  -- `{str(key): str(item) for key, item in carrier.items()}`
  abbrev carrier_of : Fields → List (String × String)
  carrier_of empty = []
  carrier_of (entry key item rest) = (key, to_str item) ∷ carrier_of rest

  -- `event_from_dict`. A negative version, which no event has, would be kept by the code.
  unfoldable pub event_from_dict : Fields → Result Event
  event_from_dict value = do
    kind ← index value "type"
    id ← index value "id"
    ledger ← index value "ledger"
    known ← to_ledger (to_str ledger)
    content ← to_dict (get_or value "content" (dict empty))
    origin ← index value "source"
    ts ← to_float (get_or value "ts" (float zero_float))
    confidence ← optional_float (get_or value "confidence" null)
    ttl ← optional_float (get_or value "ttl" null)
    version ← to_int (get_or value "version" (int (pos 0)))
    key ← optional_text (get_or value "idempotency_key" null)
    extra ← to_dict (get_or value "extra" (dict empty))
    carrier ← to_dict (get_or value "trace_carrier" (dict empty))
    ok (record {
      id = to_str id;
      kind = to_str kind;
      ledger = known;
      content = content;
      origin = to_str origin;
      ts = ts;
      confidence = confidence;
      ttl = ttl;
      version = pos_part version;
      idempotency_key = key;
      extra = extra;
      trace_carrier = carrier_of carrier;
    })

  -- `int(source_offset) if source_offset is not None else None`
  abbrev offset_of : Value → Result (Option ℤ)
  offset_of null = ok none
  offset_of v = do n ← to_int v; ok (some n)

  abbrev read_record : Fields → Value → Result OutboxRecord
  read_record event offset = do
    e ← event_from_dict event
    n ← offset_of offset
    ok (record { event = e; source_offset = n })

  -- Files of the first version hold the event itself.
  by_event : Fields → Value → Result OutboxRecord
  by_event value (dict event) = read_record event (get_or value "source_offset" null)
  by_event value _ = read_record value null

  -- `_record_from_dict`
  unfoldable pub record_from_dict : Value → Result OutboxRecord
  unfolding by_event
  record_from_dict v = do value ← as_dict v; by_event value (get_or value "event" null)
