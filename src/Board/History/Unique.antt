-- ===== src/Board/History/Unique.antt =====
-- blackboard/board.py: ids, idempotency keys, task ends and positions of the committed events, over the
-- operations of a board.
use blackboard_coordination.Base.{
  ℕ, String, ◌≡◌, inl, inr, Option, some, [], ◌∷◌, get_elem?, get_elem?-append_left, length,
}
use blackboard_coordination.Python.Result.{ok}
use blackboard_coordination.Python.Value.{Builtins}
use blackboard_coordination.Contracts.{Event, StoredEvent}
use blackboard_coordination.Board.Contract.{TerminalKey, terminal_key}
use blackboard_coordination.Board.State.{Board, new_board}
use blackboard_coordination.Board.Append.{commit, committed_at}
use blackboard_coordination.Board.Append.Idempotence.{deliver-SameIndexes}
use blackboard_coordination.Board.History.Steps.{Step, Reach, here, next, Step-cases}
use blackboard_coordination.Board.History.Indexes.{Reach-WellIndexed, at}

one_offset :
    {i j : ℕ} {e f : Event} {o : Option StoredEvent} → o ≡ some (at i e) → o ≡ some (at j f) → i ≡ j
one_offset p q = cc

module _ ⦃py : Builtins⦄ where
  -- On a board with any history, two committed events with one id are one event: they stand at
  -- one offset.
  pub Reach-id_unique :
      {b : Board} (i j : ℕ) (e f : Event)
      → Reach new_board b
      → get_elem? b.events i ≡ some e
      → get_elem? b.events j ≡ some f
      → e.id ≡ f.id
      → i ≡ j
  Reach-id_unique i j e f r h g same =
      let w = Reach-WellIndexed r in one_offset {f = f} (w.ids i e h) (rw same (w.ids j f g))

  -- On a board with any history, two committed events with one idempotency key stand at one offset.
  pub Reach-key_unique :
      {b : Board} (i j : ℕ) (e f : Event) (k : String)
      → Reach new_board b
      → get_elem? b.events i ≡ some e
      → get_elem? b.events j ≡ some f
      → e.idempotency_key ≡ some k
      → f.idempotency_key ≡ some k
      → i ≡ j
  Reach-key_unique i j e f k r h g p q =
      let w = Reach-WellIndexed r in one_offset (w.keys i e k h p) (w.keys j f k g q)

  -- On a board with any history, a task revision ends at most once: two committed terminal events (`task_done`, `task_failed`)
  -- of one task and revision stand at one offset.
  pub Reach-terminal_unique :
      {b : Board} (i j : ℕ) (e f : Event) (key : TerminalKey)
      → Reach new_board b
      → get_elem? b.events i ≡ some e
      → get_elem? b.events j ≡ some f
      → terminal_key e ≡ ok (some key)
      → terminal_key f ≡ ok (some key)
      → i ≡ j
  Reach-terminal_unique i j e f key r h g p q =
      let w = Reach-WellIndexed r in one_offset (w.terminals i e key h p) (w.terminals j f key g q)

  Step-keeps :
      {b c : Board} (i : ℕ) (e : Event)
      → Step b c
      → get_elem? b.events i ≡ some e
      → get_elem? c.events i ≡ some e
  unfolding commit
  Step-keeps {b} i e step h = elim (Step-cases step) [
    | inl same ↦ rw same.events h
    | inr (now, x, o, d, q) ↦
        rw
          (
            q,
            d.board,
            (deliver-SameIndexes b.subscribers (committed_at now x b) (length b.events)
                (commit now x d.key b)).events,
          )
          (get_elem?-append_left b.events (committed_at now x b ∷ []) i h)
  ]

  -- The stream is append-only: from any board on, no sequence of operations moves, changes or
  -- drops a committed event.
  pub Reach-keeps :
      {b c : Board} (i : ℕ) (e : Event)
      → Reach b c
      → get_elem? b.events i ≡ some e
      → get_elem? c.events i ≡ some e
  Reach-keeps i e here h = h
  Reach-keeps i e (next r step) h = Step-keeps i e step (Reach-keeps i e r h)
