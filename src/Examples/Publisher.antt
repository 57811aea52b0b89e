-- ===== src/Examples/Publisher.antt =====
-- A publication of a bid round that was broken off, and is repeated when the task is done.
use blackboard_coordination.Base.Dict.{insert, lookup}
use blackboard_coordination.Python.Value.{float_limit, float_of_int, to_float, to_int, to_str, null}
use blackboard_coordination.Sessions.Codec.{
  event_from_dict, event_to_dict, optional_float, optional_text, record_from_dict, record_to_dict,
  to_ledger,
}
use blackboard_coordination.View.Match.{to_dict}
use blackboard_coordination.Base.{◌≡◌, refl, true, none, some, []}
use blackboard_coordination.Python.Result.{ok}
use blackboard_coordination.Contracts.{Event}
use blackboard_coordination.Board.Append.Idempotence.{duplicate_of}
use blackboard_coordination.Sessions.Files.{
  Files, atomic_write_json, path_exists, read_json, same_path, unlink,
}
use blackboard_coordination.Sessions.Outbox.{stage, resolve, is_none}
use blackboard_coordination.Publisher.{DurableEventPublisher, returned, publish}
use blackboard_coordination.Publisher.Once.{publish-append}
use blackboard_coordination.Examples.Data.{plain_builtins, clock, replan, round}
use blackboard_coordination.Examples.History.{
  before_round, round_opened, finished, before_round-Reach, round_opened-Commits, finished-Reach,
}
use blackboard_coordination.Sessions.Steps.{Run, here, next, stores_receipt}
use blackboard_coordination.Sessions.Steps.Pending.{Unsettled}
use blackboard_coordination.Sessions.Tasks.{store_raw_receipt}
use blackboard_coordination.Examples.Sessions.{plain_digest, cleaning}

abbrev publisher : DurableEventPublisher
publisher = record {
  owner = none;
  source_offset = none;
  rejects = true;
  auto_resolve_success = true;
}

abbrev pending : Files
pending = (stage none round none []).0

round_staged : stage none round none [] ≡ (pending, ok round)
unfolding lookup insert float_limit float_of_int to_str to_int to_float same_path read_json
    path_exists unlink atomic_write_json event_to_dict to_dict to_ledger optional_float
    optional_text record_to_dict event_from_dict record_from_dict is_none stage
round_staged = refl

abbrev other : Event
other = record replan { idempotency_key = some "e5" }

-- The store goes on: a receipt is stored.
abbrev with_receipt : Files
with_receipt = store_raw_receipt "t" "r" null pending

receipt-Run : Run cleaning pending with_receipt
receipt-Run = next here (stores_receipt "t" "r" null)

none_settles : Unsettled cleaning none "e5"
none_settles owner key h = cc

publish-append_example : publish publisher (clock 5) other finished with_receipt ≡ record {
  board = finished;
  files = resolve none "e5" with_receipt;
  ending = returned (duplicate_of round_opened.result round);
}
publish-append_example =
    publish-append cleaning publisher (clock 3) (clock 5) round other before_round finished []
      pending with_receipt round round_opened "e5" refl refl round_staged before_round-Reach
      round_opened-Commits.0 round_opened-Commits.1 finished-Reach none_settles receipt-Run
