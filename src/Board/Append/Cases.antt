-- ===== src/Board/Append/Cases.antt =====
-- blackboard/board.py: inversion of `append`, by what it answered.
use blackboard_coordination.Base.{
  String, ◌≡◌, ◌≢◌, refl, ◌⊎◌, false, Option, none, length, some, Bool-cases, arith, inl, inr,
}
use blackboard_coordination.Python.Result.{◌>>=◌, ok, pass}
use blackboard_coordination.Python.Value.{Builtins, Float, float_lt, zero_float}
use blackboard_coordination.Contracts.{Event, appended}
use blackboard_coordination.Board.Contract.{TerminalKey, terminal_key, validate_event}
use blackboard_coordination.Board.State.{Board, rejection, result_for_existing}
use blackboard_coordination.Board.Gate.{validate_v2_transition}
use blackboard_coordination.Board.Append.{
  Outcome, refuse, find_existing, committed_at, commit, deliver, appended_result, Existing,
  answer_existing, publish_event, admit, result_for_existing, place, append,
}
use mathlib.Core.Path.{subst}
use blackboard_coordination.Python.Result.Laws.{>>=-eq-ok}

module _ ⦃py : Builtins⦄ (now : Float) (b : Board) (e : Event) where
  -- All that an append went through when it committed its event.
  pub record Committed (o : Outcome) : Type 0 where
    pub key : Option TerminalKey
    pub valid : validate_event e ≡ pass
    pub key_of : terminal_key e ≡ ok key
    pub fresh : find_existing b e key ≡ ok none
    pub gated : validate_v2_transition b.events e ≡ pass
    pub clocked : float_lt now zero_float ≡ false
    pub board :
        o.board
        ≡ deliver b.subscribers (committed_at now e b) (length b.events) (commit now e key b)
    pub result : o.result ≡ appended_result e b

  pub record Kept (o : Outcome) : Type 0 where
    pub board : o.board ≡ b
    pub status : o.result.status ≢ appended

  abbrev pub Cases : Outcome → Type 0
  Cases o = Kept o ⊎ Committed o

  refuse-Kept : (code : String) → Kept (refuse b e code)
  unfolding refuse rejection
  refuse-Kept code = record { board = refl; status = λ p. cc }

  found_status :
      (key : Option TerminalKey) (x : Existing)
      → find_existing b e key ≡ ok (some x)
      → x.status ≢ appended
  unfolding find_existing
  found_status key x h = ground arith

  answer_existing-Kept :
      (key : Option TerminalKey) (x : Existing)
      → find_existing b e key ≡ ok (some x)
      → Kept (answer_existing b e x)
  unfolding answer_existing result_for_existing
  answer_existing-Kept key x h = record { board = refl; status = found_status key x h }

  publish_event-Cases :
      (key : Option TerminalKey)
      → validate_event e ≡ pass
      → terminal_key e ≡ ok key
      → find_existing b e key ≡ ok none
      → validate_v2_transition b.events e ≡ pass
      → Cases (publish_event now b e key)
  unfolding publish_event
  publish_event-Cases key valid key_of fresh gated = elim (Bool-cases (float_lt now zero_float)) [
    | inl early ↦ rw early (inl (refuse-Kept "NEGATIVE_SERVER_TIME"))
    | inr clocked ↦ rw clocked (
        inr (record {
          key = key;
          valid = valid;
          key_of = key_of;
          fresh = fresh;
          gated = gated;
          clocked = clocked;
          board = refl;
          result = refl;
        }))
  ]

  admit-Cases :
      (key : Option TerminalKey) (o : Outcome)
      → validate_event e ≡ pass
      → terminal_key e ≡ ok key
      → find_existing b e key ≡ ok none
      → admit now b e key ≡ ok o
      → Cases o
  unfolding admit
  admit-Cases key o valid key_of fresh h =
      let (rejected, gate, rest) = >>=-eq-ok (validate_v2_transition b.events e) _ h in
      go rejected gate rest
    where
      go :
          (rejected : Option String)
          → validate_v2_transition b.events e ≡ ok rejected
          → ok (elim rejected [ some code ↦ refuse b e code | none ↦ publish_event now b e key ])
            ≡ ok o
          → Cases o
      go none gate p = subst Cases (cc) (publish_event-Cases key valid key_of fresh gate)
      go (some code) gate p = subst Cases (cc) (inl (refuse-Kept code))

  place-Cases :
      (key : Option TerminalKey) (o : Outcome)
      → validate_event e ≡ pass
      → terminal_key e ≡ ok key
      → place now b e key ≡ ok o
      → Cases o
  unfolding place
  place-Cases key o valid key_of h =
      let (existing, found, rest) = >>=-eq-ok (find_existing b e key) _ h in go existing found rest
    where
      go :
          (existing : Option Existing)
          → find_existing b e key ≡ ok existing
          → elim existing [ some x ↦ ok (answer_existing b e x) | none ↦ admit now b e key ] ≡ ok o
          → Cases o
      go none fresh p = admit-Cases key o valid key_of fresh p
      go (some x) found p = subst Cases (cc) (inl (answer_existing-Kept key x found))

  -- An `append` that returns has either kept the board and answered something else than `appended`,
  -- or it has committed its event: then the event passed `_validate_event`, the look-ups found
  -- nothing, the gate passed it, the clock was not negative, and the board is that of the commit
  -- after the delivery to the subscribers.
  pub append-Cases : (o : Outcome) → append now b e ≡ ok o → Cases o
  unfolding append
  append-Cases o h =
      let (rejected, check, rest) = >>=-eq-ok (validate_event e) _ h in go rejected check rest
    where
      keyed :
          validate_event e ≡ pass → (terminal_key e >>= λ key. place now b e key) ≡ ok o → Cases o
      keyed valid p =
          let (key, key_of, q) = >>=-eq-ok (terminal_key e) _ p in place-Cases key o valid key_of q

      go :
          (rejected : Option String)
          → validate_event e ≡ ok rejected
          → elim rejected [
            | some code ↦ ok (refuse b e code)
            | none ↦ terminal_key e >>= λ key. place now b e key
          ]
            ≡ ok o
          → Cases o
      go none valid p = keyed valid p
      go (some code) check p = subst Cases (cc) (inl (refuse-Kept code))
