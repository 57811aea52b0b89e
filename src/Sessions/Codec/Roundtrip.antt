-- ===== src/Sessions/Codec/Roundtrip.antt =====
-- Events and records that are written and read back.
use blackboard_coordination.Base.{
  String, ◌≡◌, refl, ap, true, Option, none, some, List, [], ◌∷◌, member,
}
use blackboard_coordination.Base.Int.{ℤ}
use blackboard_coordination.Python.Result.{ok}
use blackboard_coordination.Python.Value.{
  Builtins, Float, float, str, int, zero_float, to_int, to_str, to_float,
}
use blackboard_coordination.Contracts.{Event, ledgers}
use blackboard_coordination.Sessions.Codec.{
  carrier_fields, carrier_of, optional, optional_float, optional_text, to_ledger, offset_of,
  event_to_dict, event_from_dict, record_to_dict, record_from_dict, by_event,
}
use blackboard_coordination.View.Match.{to_dict}

-- The event without the marks that the board sets.
abbrev pub unstamped : Event → Event
unstamped e = record e { ts = zero_float; version = 0 }

optional_float-float : (x : Option Float) → optional_float (optional float x) ≡ ok x
unfolding optional_float
optional_float-float none = refl
optional_float-float (some x) = refl

optional_text-str : (s : Option String) → optional_text (optional str s) ≡ ok s
unfolding optional_text
optional_text-str none = refl
optional_text-str (some s) = refl

module _ ⦃py : Builtins⦄ where
  carrier_of-fields : (c : List (String × String)) → carrier_of (carrier_fields c) ≡ c
  unfolding to_str
  carrier_of-fields [] = refl
  carrier_of-fields ((key, item) ∷ rest) = ap (λ r. (key, item) ∷ r) (carrier_of-fields rest)

  offset_of-int : (n : Option ℤ) → offset_of (optional int n) ≡ ok n
  unfolding to_int
  offset_of-int none = refl
  offset_of-int (some n) = refl

  -- An event with a known ledger reads back as it was, without its time and version.
  pub event_from_dict-event_to_dict :
      (e : Event)
      → member e.ledger ledgers ≡ true
      → event_from_dict (event_to_dict e) ≡ ok (unstamped e)
  unfolding event_from_dict event_to_dict to_str to_float to_int to_dict to_ledger
  event_from_dict-event_to_dict e known =
      rw
        (
          known,
          optional_float-float e.confidence,
          optional_float-float e.ttl,
          optional_text-str e.idempotency_key,
          carrier_of-fields e.trace_carrier,
        )
        refl

  -- A record whose event reads back as `c` is read as `c` with its offset.
  pub record_from_dict-record_to_dict :
      (e c : Event) (n : Option ℤ)
      → event_from_dict (event_to_dict e) ≡ ok c
      → record_from_dict (record_to_dict e n) ≡ ok (record { event = c; source_offset = n })
  unfolding record_from_dict record_to_dict by_event
  record_from_dict-record_to_dict e c n h = rw (h, offset_of-int n) refl
