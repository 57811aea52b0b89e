-- ===== src/Sessions/Steps.antt =====
-- coordination/file_session_store.py: the operations of a store as a step relation on its files.
mod Frame
pub mod Offsets
pub mod Pending
pub mod Versions
use blackboard_coordination.Base.{String, ◌≡◌, Bool, true, Option}
use blackboard_coordination.Base.Int.{ℤ}
use blackboard_coordination.Python.Result.{ok}
use blackboard_coordination.Python.Value.{Builtins, Value}
use blackboard_coordination.Contracts.{Event}
use blackboard_coordination.Sessions.Files.{Files}
use blackboard_coordination.Sessions.Outbox.{
  Digest, Owner, stage, resolve, refuse, save_consumer_offset,
}
use blackboard_coordination.Sessions.Tasks.{
  save_session, store_raw_receipt, remove_raw_receipt, cleanup_task,
}
use blackboard_coordination.Sessions.Tasks.Session.{TaskSession}

-- Which calls a run may hold: `cleanup_task`, and of the calls that settle an event (resolve or
-- reject it) those of an owner and an idempotency key.
pub record Scope : Type 0 where
  pub cleans : Bool
  pub settles : Owner → String → Bool

-- One call under the lock. A call that raises before it writes leaves the files as they are.
pub data Step ⦃py : Builtins⦄ ⦃hash : Digest⦄ (scope : Scope) (fs : Files) : Files → Type 0 where
  stages : (owner : Owner) (e : Event) (n : Option ℤ) → Step scope fs (stage owner e n fs).0
  resolves :
      (owner : Owner) (key : String)
      → scope.settles owner key ≡ true
      → Step scope fs (resolve owner key fs)
  refuses :
      (owner : Owner) (key : String) (result : Value) (gs : Files)
      → scope.settles owner key ≡ true
      → refuse owner key result fs ≡ ok gs
      → Step scope fs gs
  saves_offset : (n : ℤ) (gs : Files) → save_consumer_offset n fs ≡ ok gs → Step scope fs gs
  saves_session : (s : TaskSession) (gs : Files) → save_session s fs ≡ ok gs → Step scope fs gs
  stores_receipt :
      (task_id intent_id : String) (receipt : Value)
      → Step scope fs (store_raw_receipt task_id intent_id receipt fs)
  removes_receipt :
      (task_id intent_id : String) → Step scope fs (remove_raw_receipt task_id intent_id fs)
  cleans_task : (task_id : String) → scope.cleans ≡ true → Step scope fs (cleanup_task task_id fs).0

pub data Run ⦃py : Builtins⦄ ⦃hash : Digest⦄ (scope : Scope) (fs : Files) : Files → Type 0 where
  here : Run scope fs fs
  next : {gs hs : Files} → Run scope fs gs → Step scope gs hs → Run scope fs hs
