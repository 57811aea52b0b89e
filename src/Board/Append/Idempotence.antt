-- ===== src/Board/Append/Idempotence.antt =====
-- blackboard/board.py: `append` of an event that the indexes know already.

use blackboard_coordination.Base.{
  ℕ, ◌+◌, String, ◌≡◌, refl, true, Option, none, some, List, [], ◌∷◌, length, arith, ◌∷◌,
  Option-cases, inr, inl, ◌∙◌, ap,
}
use blackboard_coordination.Base.Dict.{lookup}
use blackboard_coordination.Python.Result.{ok, pass}
use blackboard_coordination.Python.Json.{same_text_refl}
use blackboard_coordination.Python.Value.{Builtins, Float}
use blackboard_coordination.Contracts.{Event, StoredEvent, duplicate_same}
use blackboard_coordination.Board.Contract.{
  TerminalKey, same_event, canonical_event, terminal_key, validate_event, validate_envelope,
}
use blackboard_coordination.Board.State.{Board, Subscriber, terminal_at, result_for_existing}
use blackboard_coordination.Board.Append.{
  Existing, append, place, answer_existing, find_existing, committed_at, deliver, AppendResult,
  stamp_caller, appended_result,
}

-- Delivery touches nothing but the recorded errors of the subscribers.
pub record SameIndexes (a b : Board) : Type 0 where
  pub events : a.events ≡ b.events
  pub keys : a.idempotency_index ≡ b.idempotency_index
  pub ids : a.event_id_index ≡ b.event_id_index
  pub terminals : a.terminal_index ≡ b.terminal_index

pub deliver-SameIndexes :
    (ss : List Subscriber) (e : Event) (offset : ℕ) (b : Board)
    → SameIndexes (deliver ss e offset b) b
unfolding deliver
deliver-SameIndexes [] e offset b = record {
  events = refl;
  keys = refl;
  ids = refl;
  terminals = refl;
}
deliver-SameIndexes (s ∷ ss) e offset b =
    let rest = deliver-SameIndexes ss e offset _ in
    record {
      events = rest.events ∙ ground arith;
      keys = rest.keys ∙ ground arith;
      ids = rest.ids ∙ ground arith;
      terminals = rest.terminals ∙ ground arith;
    }

-- An event with another version and time.
abbrev pub restamped : ℕ → Float → Event → Event
restamped v t e = record e { version = v; ts = t }

-- The business identity leaves out what the server sets.
same_event-committed :
    (v : ℕ) (t now : Float) (e : Event) (b : Board)
    → same_event (restamped v t e) (committed_at now e b) ≡ true
unfolding same_event canonical_event
same_event-committed v t now e b = same_text_refl _

module _ ⦃py : Builtins⦄ (v : ℕ) (t now : Float) (b : Board) (e : Event) where
  abbrev pub stored_now : StoredEvent
  stored_now = record { offset = length b.events; event = committed_at now e b }

  abbrev again : Existing
  again = record { status = duplicate_same; stored = stored_now; event_id = e.id; reason = none }

  -- What the indexes of a later board say of the committed event.
  pub record Indexed (c : Board) (key : Option TerminalKey) : Type 0 where
    pub by_key :
        (k : String) → e.idempotency_key ≡ some k → lookup k c.idempotency_index ≡ some stored_now
    pub by_end : (k : TerminalKey) → key ≡ some k → terminal_at k c.terminal_index ≡ some stored_now
    pub by_name : lookup e.id c.event_id_index ≡ some stored_now

  found_keyed :
      (c : Board) (key : Option TerminalKey) (k : String)
      → e.idempotency_key ≡ some k
      → lookup k c.idempotency_index ≡ some stored_now
      → find_existing c (restamped v t e) key ≡ ok (some again)
  unfolding find_existing
  found_keyed c key k given known = ground (arith, same_event-committed v t now e b)

  found_ended :
      (c : Board) (key : TerminalKey)
      → e.idempotency_key ≡ none
      → terminal_at key c.terminal_index ≡ some stored_now
      → find_existing c (restamped v t e) (some key) ≡ ok (some again)
  unfolding find_existing
  found_ended c key missing known = ground (arith, same_event-committed v t now e b)

  found_named :
      (c : Board)
      → e.idempotency_key ≡ none
      → lookup e.id c.event_id_index ≡ some stored_now
      → find_existing c (restamped v t e) none ≡ ok (some again)
  unfolding find_existing
  found_named c missing known = ground (arith, same_event-committed v t now e b)

  Indexed-find_existing :
      (c : Board) (key : Option TerminalKey)
      → Indexed c key
      → find_existing c (restamped v t e) key ≡ ok (some again)
  Indexed-find_existing c key known = elim (Option-cases e.idempotency_key) [
    | inr (k, given) ↦ found_keyed c key k given (known.by_key k given)
    | inl missing ↦ elim (Option-cases key) [
      | inl no_end ↦ rw no_end (found_named c missing known.by_name)
      | inr (k, ends) ↦ rw ends (found_ended c k missing (known.by_end k ends))
    ]
  ]

module _ ⦃py : Builtins⦄ where
  pub restamped-valid :
      (v : ℕ) (t : Float) (e : Event) → validate_event (restamped v t e) ≡ validate_event e
  unfolding validate_event validate_envelope terminal_key
  restamped-valid v t e = refl

  pub restamped-key :
      (v : ℕ) (t : Float) (e : Event) → terminal_key (restamped v t e) ≡ terminal_key e
  unfolding terminal_key
  restamped-key v t e = refl

  -- The answer to the repetition of an append that was answered by `r`.
  abbrev pub duplicate_of : AppendResult → Event → AppendResult
  duplicate_of r e = record {
    status = duplicate_same;
    offset = r.offset;
    version = r.version;
    event_id = e.id;
    existing_event_id = some e.id;
    reason_code = none;
  }

  append_step :
      (now : Float) (b : Board) (e : Event) (key : Option TerminalKey)
      → validate_event e ≡ pass
      → terminal_key e ≡ ok key
      → append now b e ≡ place now b e key
  unfolding append
  append_step now b e key valid key_of = rw (valid, key_of)

  again_answer :
      (v : ℕ) (t now : Float) (b c : Board) (e : Event)
      → answer_existing c (restamped v t e) (again v t now b e) ≡ record {
        board = c;
        result = duplicate_of (appended_result e b) e;
        caller = restamped (length b.events + 1) now e;
      }
  unfolding answer_existing result_for_existing stamp_caller
  again_answer v t now b c e = refl

  -- On a board that indexes the committed event, appending it again finds it.
  pub append-Indexed :
      (v : ℕ) (t now later : Float) (b c : Board) (e : Event) (key : Option TerminalKey)
      → validate_event e ≡ pass
      → terminal_key e ≡ ok key
      → Indexed v t now b e c key
      → append later c (restamped v t e)
        ≡ ok (record {
          board = c;
          result = duplicate_of (appended_result e b) e;
          caller = restamped (length b.events + 1) now e;
        })
  unfolding place
  append-Indexed v t now later b c e key valid key_of known =
      append_step later c (restamped v t e) key (restamped-valid v t e ∙ valid)
        (restamped-key v t e ∙ key_of)
      ∙ rw (Indexed-find_existing v t now b e c key known) refl
      ∙ ap ok (again_answer v t now b c e)
