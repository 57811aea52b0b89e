-- ===== src/Board/History/Steps.antt =====
-- The operations of a board as a step relation.
use blackboard_coordination.Base.{ℕ, String, ◌≡◌, refl, ◌⊎◌, inl, inr, Option, List, arith}
use blackboard_coordination.Base.Int.{ℤ, pos, negsuc}
use blackboard_coordination.Python.Result.{ok}
use blackboard_coordination.Python.Value.{Builtins, Float}
use blackboard_coordination.Contracts.{Event}
use blackboard_coordination.Board.State.{Board, claim, release}
use blackboard_coordination.Board.Append.{Outcome, append}
use blackboard_coordination.Board.Append.Cases.{Committed, append-Cases}
use blackboard_coordination.Board.Append.Idempotence.{SameIndexes}
use blackboard_coordination.Board.Reads.{subscribe}

-- Each operation that changes a board, called under the lock, and so one after the other.
pub data Step ⦃py : Builtins⦄ (b : Board) : Board → Type 0 where
  appends : (now : Float) (e : Event) (o : Outcome) → append now b e ≡ ok o → Step b o.board
  claims : (resource device_id : String) → Step b (claim resource device_id b).0
  releases : (resource device_id : String) → Step b (release resource device_id b)
  subscribes :
      (handler : Event → ℕ → Option String) (types : Option (List String)) (offset : ℤ) (c : Board)
      (sid : String)
      → subscribe handler types offset b ≡ ok (c, sid)
      → Step b c

pub data Reach ⦃py : Builtins⦄ (b : Board) : Board → Type 0 where
  here : Reach b b
  next : {c d : Board} → Reach b c → Step c d → Reach b d

module _ ⦃py : Builtins⦄ where
  -- A step other than a commit leaves the stream and the indexes alone.
  pub Step-cases :
      {b c : Board}
      → Step b c
      → SameIndexes c b
        ⊎ ((now : Float) × (e : Event) × (o : Outcome) × Committed now b e o × (c ≡ o.board))
  unfolding claim release subscribe
  Step-cases {b} (appends now e o h) = elim (append-Cases now b e o h) [
    | inl kept ↦ inl (ground (arith, kept.board))
    | inr c ↦ inr (now, e, o, c, refl)
  ]
  Step-cases {b} (claims resource device_id) = inl (ground arith)
  Step-cases {b} (releases resource device_id) = inl (ground arith)
  Step-cases {b} (subscribes handler types (pos n) c sid h) = inl (ground arith)
  Step-cases {b} (subscribes handler types (negsuc n) c sid h) = cc
