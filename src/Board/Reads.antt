-- ===== src/Board/Reads.antt =====
-- blackboard/board.py: `read_since`, `read_events` and `subscribe`.
use blackboard_coordination.Base.{
  ℕ, zero, suc, ◌+◌, String, Bool, true, false, Option, none, some, List, [], ◌∷◌, member,
  if◌then◌else◌, ◌++◌, leb, ◌&&◌,
}
use blackboard_coordination.Base.Int.{ℤ, pos, negsuc, ltb_ℤ}
use blackboard_coordination.Python.Result.{Result, ok, raised, value_error}
use Prim.Native.String.{◌++◌ as text_append}
use blackboard_coordination.Contracts.{Event, StoredEvent}
use blackboard_coordination.Board.State.{Board, Subscriber}
use blackboard_coordination.Python.Value.{Builtins}
use blackboard_coordination.Base.Dict.{Assoc, insert}

abbrev pub requests : Option (List String) → Event → Bool
requests none e = true
requests (some types) e = member e.kind types

-- The loop of `_read_since_locked` from the offset `at` on; `room` is what is left of the limit.
unfoldable pub read_from : ℕ → ℕ → Option (List String) → List Event → List StoredEvent
read_from at room types [] = []
read_from at zero types (e ∷ es) = []
read_from at (suc room) types (e ∷ es) = elim (requests types e) [
  | true ↦ record { offset = at; event = e } ∷ read_from (suc at) room types es
  | false ↦ read_from (suc at) (suc room) types es
]

unfoldable pub drop : ℕ → List Event → List Event
drop zero es = es
drop (suc n) [] = []
drop (suc n) (e ∷ es) = drop n es

-- The offset after `offset`, which is at least -1.
abbrev next_offset : ℤ → ℕ
next_offset (pos n) = n + 1
next_offset (negsuc n) = 0

-- `_read_since_locked`: what is there at the time of the call.
unfoldable pub read_since_locked : Board → ℤ → Option (List String) → ℕ → List StoredEvent
unfolding drop
read_since_locked b offset types limit =
    read_from (next_offset offset) limit types (drop (next_offset offset) b.events)

-- `read_since` with `timeout_s == 0`
unfoldable pub read_since : Board → ℤ → Option (List String) → ℤ → Result (List StoredEvent)
read_since b offset types (negsuc n) = raised value_error
read_since b offset types (pos zero) = raised value_error
read_since b offset types (pos (suc n)) =
    if ltb_ℤ offset (negsuc 0)
    then raised value_error
    else ok (read_since_locked b offset types (suc n))

-- `read_events`: the bare events from `since_offset` on.
unfoldable pub select : Option (List String) → List Event → List Event
select types [] = []
select types (e ∷ es) =
    let rest = select types es in elim (requests types e) [ true ↦ e ∷ rest | false ↦ rest ]

unfoldable pub read_events : Board → ℤ → Option (List String) → Result (List Event)
unfolding drop
read_events b (negsuc n) types = raised value_error
read_events b (pos n) types = ok (select types (drop n b.events))

-- The history that a new subscriber is handed, with what its handler raised.
unfoldable pub catch_up : Subscriber → ℕ → ℕ → List Event → Assoc String → Assoc String
catch_up s at from_offset [] errors = errors
catch_up s at from_offset (e ∷ es) errors = catch_up s (suc at) from_offset es (
    if leb from_offset at && requests s.types e
    then elim (s.handler e at) [ none ↦ errors | some error ↦ insert s.sid error errors ]
    else errors)

module _ ⦃py : Builtins⦄ where
  -- `subscribe`: the board and the id of the subscription
  unfoldable pub subscribe :
      (Event → ℕ → Option String) → Option (List String) → ℤ → Board → Result (Board × String)
  subscribe handler types (negsuc n) b = raised value_error
  subscribe handler types (pos n) b =
      let sid = text_append "sub-" (py.int_text (pos (b.sub_id + 1))) in
      let s : Subscriber = record { sid = sid; handler = handler; types = types } in
      ok (
        record b {
          sub_id = b.sub_id + 1;
          subscribers = b.subscribers ++ s ∷ [];
          subscriber_errors = catch_up s 0 n b.events b.subscriber_errors;
        },
        sid,
      )
