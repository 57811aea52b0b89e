-- ===== src/Board/History/Repeats.antt =====
-- Repeating an append after any other operations of the board.
use blackboard_coordination.Base.{
  ℕ, ◌+◌, ◌≡◌, inl, inr, Option, some, get_elem?, get_elem?-snoc_last, length, ◌∙◌, ap,
}
use blackboard_coordination.Python.Result.{ok}
use blackboard_coordination.Python.Value.{Builtins, Float}
use blackboard_coordination.Contracts.{Event, appended}
use blackboard_coordination.Board.Contract.{TerminalKey, terminal_key}
use blackboard_coordination.Board.State.{Board, new_board}
use blackboard_coordination.Board.Append.{Outcome, append, commit, committed_at, deliver}
use blackboard_coordination.Board.Append.Cases.{append-Cases}
use blackboard_coordination.Board.Append.Idempotence.{
  Indexed, append-Indexed, deliver-SameIndexes, duplicate_of, restamped, restamped-key,
}
use blackboard_coordination.Board.History.Steps.{Reach, here, next, appends}
use blackboard_coordination.Board.History.Indexes.{WellIndexed, Reach-WellIndexed}
use blackboard_coordination.Board.History.Unique.{Reach-keeps}

module _ ⦃py : Builtins⦄ where
  Reach-Reach : {b c d : Board} → Reach b c → Reach c d → Reach b d
  Reach-Reach r here = r
  Reach-Reach r (next s step) = next (Reach-Reach r s) step

  -- The committed event is the last of the stream that the append leaves.
  last_committed :
      (now : Float) (b : Board) (e : Event) (key : Option TerminalKey)
      → get_elem?
          (deliver b.subscribers
            (committed_at now e b)
            (length b.events)
            (commit now e key b)).events
          (length b.events)
        ≡ some (committed_at now e b)
  unfolding commit
  last_committed now b e key =
      rw
        (deliver-SameIndexes b.subscribers (committed_at now e b) (length b.events)
          (commit now e key b)).events
        (get_elem?-snoc_last b.events (committed_at now e b))

  WellIndexed-Indexed :
      (v : ℕ) (t now : Float) (b c : Board) (e : Event) (key : Option TerminalKey)
      → WellIndexed c
      → terminal_key e ≡ ok key
      → get_elem? c.events (length b.events) ≡ some (committed_at now e b)
      → Indexed v t now b e c key
  WellIndexed-Indexed v t now b c e key w key_of stands = record {
    by_key = λ k given. w.keys (length b.events) (committed_at now e b) k stands given;
    by_end = λ k ends.
        w.terminals (length b.events) (committed_at now e b) k stands
          (restamped-key (length b.events + 1) now e ∙ key_of ∙ ap ok ends);
    by_name = w.ids (length b.events) (committed_at now e b) stands;
  }

  -- When an append on a board with any history has committed its event, and any operations of the
  -- board have followed, appending the event again, whatever version and time it now carries, is
  -- answered `duplicate_same` with the offset and the version of the first append, changes nothing
  -- on the board, and stamps the caller's event with the version and the time of the committed one.
  pub append-append :
      (v : ℕ) (t now later : Float) (b c : Board) (e : Event) (o : Outcome)
      → Reach new_board b
      → append now b e ≡ ok o
      → o.result.status ≡ appended
      → Reach o.board c
      → append later c (restamped v t e)
        ≡ ok (record {
          board = c;
          result = duplicate_of o.result e;
          caller = restamped (length b.events + 1) now e;
        })
  append-append v t now later b c e o past h committed since = elim (append-Cases now b e o h) [
    | inl kept ↦ absurd (kept.status committed)
    | inr d ↦
        let w = Reach-WellIndexed (Reach-Reach (next past (appends now e o h)) since) in
        let stands : get_elem? c.events (length b.events) ≡ some (committed_at now e b) =
          Reach-keeps (length b.events) (committed_at now e b) since
            (rw d.board (last_committed now b e d.key)) in
        rw d.result (
          append-Indexed v t now later b c e d.key d.valid d.key_of
            (WellIndexed-Indexed v t now b c e d.key w d.key_of stands))
  ]
