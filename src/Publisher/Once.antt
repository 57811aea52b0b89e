-- ===== src/Publisher/Once.antt =====
-- coordination/publisher.py: repeating a publication that was broken off after the append.
use blackboard_coordination.Base.{String, ◌≡◌, refl, ap, ◌∙◌, false, some, ◌==◌, if◌then◌else◌}
use blackboard_coordination.Python.Result.{ok}
use blackboard_coordination.Python.Value.{Builtins, Float}
use blackboard_coordination.Contracts.{Event, appended}
use blackboard_coordination.Board.State.{Board, new_board}
use blackboard_coordination.Board.Append.{Outcome, append}
use blackboard_coordination.Board.Append.Idempotence.{duplicate_of}
use blackboard_coordination.Board.History.Steps.{Reach}
use blackboard_coordination.Board.History.Repeats.{append-append}
use blackboard_coordination.Sessions.Steps.{Run, Scope}
use blackboard_coordination.Sessions.Steps.Pending.{Run-stage, Unsettled}
use blackboard_coordination.Sessions.Files.{Files}
use blackboard_coordination.Sessions.Outbox.{Digest, stage, resolve}
use blackboard_coordination.Sessions.Outbox.Staging.{stage-Held}
use blackboard_coordination.Publisher.{
  DurableEventPublisher, returned, publish, publish_keyed, submitted_from, answered, settle,
}

module _ ⦃py : Builtins⦄ ⦃hash : Digest⦄ where
  publish-staged :
      (p : DurableEventPublisher) (key : String) (now : Float) (e : Event) (b : Board) (fs : Files)
      → e.idempotency_key ≡ some key
      → (key == "") ≡ false
      → publish p now e b fs ≡ submitted_from p key now b (stage p.owner e p.source_offset fs)
  unfolding publish publish_keyed
  publish-staged p key now e b fs given filled =
      ap (publish_keyed p now e b fs) given ∙ rw filled refl

  -- When an event was staged and an append on a board with any history committed it, and the call
  -- broke off before the event left the outbox, and then any operations of the board and any calls
  -- of the store that do not resolve or reject the event's key have followed, publishing any event
  -- under the same key changes nothing on the board, returns the first position as
  -- `duplicate_same`, and resolves the event where the publisher does so.
  pub publish-append :
      (scope : Scope) (p : DurableEventPublisher) (now later : Float) (e e₂ : Event) (b c : Board)
      (fs gs hs : Files) (x : Event) (o : Outcome) (key : String)
      → e.idempotency_key ≡ some key
      → e₂.idempotency_key ≡ some key
      → stage p.owner e p.source_offset fs ≡ (gs, ok x)
      → Reach new_board b
      → append now b x ≡ ok o
      → o.result.status ≡ appended
      → Reach o.board c
      → Unsettled scope p.owner (hash.safe_key key)
      → Run scope gs hs
      → publish p later e₂ c hs ≡ record {
        board = c;
        files = if p.auto_resolve_success then resolve p.owner key hs else hs;
        ending = returned (duplicate_of o.result x);
      }
  unfolding submitted_from answered settle
  publish-append scope p now later e e₂ b c fs gs hs x o key given given₂ staged past committed
        is_new since free run =
      let (k, named, filled, held) = stage-Held p.owner e p.source_offset fs gs x staged in
      let same : k ≡ key = cc in
      publish-staged p key later e₂ c hs given₂ (rw same at filled)
      ∙ ap (submitted_from p key later c) (
          Run-stage scope p.owner e e₂ p.source_offset p.source_offset key fs gs hs x staged given
            free run given₂)
      ∙ ap (answered p key c hs)
          (append-append x.version x.ts now later b c x o past committed is_new since)
