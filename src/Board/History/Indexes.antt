-- ===== src/Board/History/Indexes.antt =====
-- blackboard/board.py: the stream and the three indexes, over the operations of a board.
use blackboard_coordination.Base.{
  ℕ, ◌+◌, String, ◌≡◌, ◌⊎◌, inl, inr, Option, some, none, get_elem?, get_elem?-snoc, arith, length,
  eq_iff, eq_refl, Option-cases, ap, ◌∙◌,
}
use blackboard_coordination.Base.Dict.{lookup, lookup-insert}
use blackboard_coordination.Python.Result.{ok, pass}
use blackboard_coordination.Python.Value.{Builtins, Float}
use blackboard_coordination.Contracts.{Event, StoredEvent}
use blackboard_coordination.Board.Contract.{TerminalKey, terminal_key, validate_event, key_eq_iff}
use blackboard_coordination.Board.State.{Board, terminal_at, new_board}
use blackboard_coordination.Board.Append.{find_existing, commit, committed_at}
use blackboard_coordination.Board.Append.Idempotence.{
  SameIndexes, deliver-SameIndexes, restamped-valid, restamped-key,
}
use blackboard_coordination.Board.History.Steps.{Step, Reach, here, next, Step-cases}

abbrev pub at : ℕ → Event → StoredEvent
at i e = record { offset = i; event = e }

module _ ⦃py : Builtins⦄ where
  pub record WellIndexed (b : Board) : Type 0 where
    pub versions : (i : ℕ) (e : Event) → get_elem? b.events i ≡ some e → e.version ≡ i + 1
    pub valid : (i : ℕ) (e : Event) → get_elem? b.events i ≡ some e → validate_event e ≡ pass
    pub ids :
        (i : ℕ) (e : Event)
        → get_elem? b.events i ≡ some e
        → lookup e.id b.event_id_index ≡ some (at i e)
    pub keys :
        (i : ℕ) (e : Event) (k : String)
        → get_elem? b.events i ≡ some e
        → e.idempotency_key ≡ some k
        → lookup k b.idempotency_index ≡ some (at i e)
    pub terminals :
        (i : ℕ) (e : Event) (key : TerminalKey)
        → get_elem? b.events i ≡ some e
        → terminal_key e ≡ ok (some key)
        → terminal_at key b.terminal_index ≡ some (at i e)

  SameIndexes-WellIndexed : {b c : Board} → SameIndexes c b → WellIndexed b → WellIndexed c
  SameIndexes-WellIndexed same w = record {
    versions = λ i e. rw same.events (w.versions i e);
    valid = λ i e. rw same.events (w.valid i e);
    ids = λ i e. rw (same.events, same.ids) (w.ids i e);
    keys = λ i e k. rw (same.events, same.keys) (w.keys i e k);
    terminals = λ i e key. rw (same.events, same.terminals) (w.terminals i e key);
  }

  -- No index knows an event for which the look-ups find nothing.
  fresh_id :
      (b : Board) (e : Event) (key : Option TerminalKey)
      → find_existing b e key ≡ ok none
      → lookup e.id b.event_id_index ≡ none
  unfolding find_existing
  fresh_id b e key h = ground arith

  fresh_key :
      (b : Board) (e : Event) (key : Option TerminalKey) (k : String)
      → find_existing b e key ≡ ok none
      → e.idempotency_key ≡ some k
      → lookup k b.idempotency_index ≡ none
  unfolding find_existing
  fresh_key b e key k h g = ground arith

  fresh_terminal :
      (b : Board) (e : Event) (key : TerminalKey)
      → find_existing b e (some key) ≡ ok none
      → terminal_at key b.terminal_index ≡ none
  unfolding find_existing
  fresh_terminal b e key h = ground arith

  module _ (now : Float) (b : Board) (e : Event) (key : Option TerminalKey) (w : WellIndexed b)
      (valid : validate_event (committed_at now e b) ≡ pass)
      (key_of : terminal_key (committed_at now e b) ≡ ok key)
      (fresh : find_existing b e key ≡ ok none) where
    new_stored : StoredEvent
    new_stored = at (length b.events) (committed_at now e b)

    commit_ids :
        (i : ℕ) (x : Event)
        → get_elem? (commit now e key b).events i ≡ some x
        → lookup x.id (commit now e key b).event_id_index ≡ some (at i x)
    unfolding commit new_stored
    commit_ids i x h = elim (get_elem?-snoc b.events (committed_at now e b) i h) [
      | inl old ↦ ground (
        arith,
        lookup-insert e.id x.id new_stored b.event_id_index,
        eq_iff e.id x.id,
        fresh_id b e key fresh,
        w.ids i x old,
      )
      | inr (p, q) ↦
          ground (arith, lookup-insert e.id x.id new_stored b.event_id_index, eq_refl e.id)
    ]

    commit_keys :
        (i : ℕ) (x : Event) (k : String)
        → get_elem? (commit now e key b).events i ≡ some x
        → x.idempotency_key ≡ some k
        → lookup k (commit now e key b).idempotency_index ≡ some (at i x)
    unfolding commit new_stored
    commit_keys i x k h g = elim (get_elem?-snoc b.events (committed_at now e b) i h) [
      | inl old ↦ older (Option-cases e.idempotency_key) old
      | inr (p, q) ↦ ground (arith, lookup-insert k k new_stored b.idempotency_index, eq_refl k)
    ]
      where
        older :
            (e.idempotency_key ≡ none) ⊎ ((j : String) × (e.idempotency_key ≡ some j))
            → get_elem? b.events i ≡ some x
            → lookup k (commit now e key b).idempotency_index ≡ some (at i x)
        older (inl none_given) old = ground (arith, w.keys i x k old g)
        older (inr (j, given)) old = ground (
          arith,
          lookup-insert j k new_stored b.idempotency_index,
          eq_iff j k,
          fresh_key b e key j fresh given,
          w.keys i x k old g,
        )

    commit_terminals :
        (i : ℕ) (x : Event) (k : TerminalKey)
        → get_elem? (commit now e key b).events i ≡ some x
        → terminal_key x ≡ ok (some k)
        → terminal_at k (commit now e key b).terminal_index ≡ some (at i x)
    unfolding commit new_stored terminal_at
    commit_terminals i x k h g = elim (get_elem?-snoc b.events (committed_at now e b) i h) [
      | inl old ↦ older (Option-cases key) old
      | inr (p, q) ↦ newer (key_of_committed q) p q
    ]
      where
        key_of_committed : committed_at now e b ≡ x → key ≡ some k
        key_of_committed q = cc (key_of, g, ap terminal_key q)

        newer :
            key ≡ some k
            → i ≡ length b.events
            → committed_at now e b ≡ x
            → terminal_at k (commit now e key b).terminal_index ≡ some (at i x)
        newer given p q = ground (arith, key_eq_iff k k)

        older :
            (key ≡ none) ⊎ ((j : TerminalKey) × (key ≡ some j))
            → get_elem? b.events i ≡ some x
            → terminal_at k (commit now e key b).terminal_index ≡ some (at i x)
        older (inl none_given) old = ground (arith, w.terminals i x k old g)
        older (inr (j, given)) old = ground (
          arith,
          key_eq_iff j k,
          fresh_terminal b e j (rw (← given) fresh),
          w.terminals i x k old g,
        )

    commit-WellIndexed : WellIndexed (commit now e key b)
    unfolding commit
    commit-WellIndexed = record {
      versions = λ i x h. elim (get_elem?-snoc b.events (committed_at now e b) i h) [
        | inl old ↦ w.versions i x old
        | inr (p, q) ↦ ground arith
      ];
      valid = λ i x h. elim (get_elem?-snoc b.events (committed_at now e b) i h) [
        | inl old ↦ w.valid i x old
        | inr (p, q) ↦ rw (← q) valid
      ];
      ids = commit_ids;
      keys = commit_keys;
      terminals = commit_terminals;
    }

  WellIndexed-new : WellIndexed new_board
  WellIndexed-new = record {
    versions = λ i e h. cc;
    valid = λ i e h. cc;
    ids = λ i e h. cc;
    keys = λ i e k h. cc;
    terminals = λ i e key h. cc;
  }

  -- Every operation keeps this.
  pub Step-WellIndexed : {b c : Board} → WellIndexed b → Step b c → WellIndexed c
  Step-WellIndexed {b} w step = elim (Step-cases step) [
    | inl same ↦ SameIndexes-WellIndexed same w
    | inr (now, e, o, d, q) ↦
        rw (q, d.board)
          (SameIndexes-WellIndexed
            (deliver-SameIndexes b.subscribers (committed_at now e b) (length b.events)
              (commit now e d.key b))
            (commit-WellIndexed now b e d.key w
              (restamped-valid (length b.events + 1) now e ∙ d.valid)
              (restamped-key (length b.events + 1) now e ∙ d.key_of) d.fresh))
  ]

  -- On every board that the operations lead to, each committed event carries its position as its
  -- version, passes `_validate_event`, and is the entry of the indexes at its id, its idempotency
  -- key and its terminal key.
  pub Reach-WellIndexed : {b : Board} → Reach new_board b → WellIndexed b
  Reach-WellIndexed here = WellIndexed-new
  Reach-WellIndexed (next r step) = Step-WellIndexed (Reach-WellIndexed r) step
