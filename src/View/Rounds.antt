-- ===== src/View/Rounds.antt =====
-- blackboard/view.py: `_bid_round_view`.
use blackboard_coordination.Base.{
  ℕ, String, Bool, false, ◌||◌, Option, none, some, List, [], ◌∷◌, ◌==◌, if◌then◌else◌,
}
use blackboard_coordination.Base.Int.{ℤ, pos, negsuc, eq_ℤ}
use blackboard_coordination.Base.Dict.{Assoc, insert, by_key}
use blackboard_coordination.Python.Result.{Result, ok, ◌>>=◌}
use blackboard_coordination.Python.Value.{
  Builtins, Float, infinite, Fields, float, get_or, to_float, float_lt,
}
use blackboard_coordination.Contracts.{Event}
use blackboard_coordination.View.Match.{text_field, int_field, matches_task}

-- The events stand for the records made of them (`_metadata_record`, the entries of
-- `bids_by_device`), which copy their payload, id, version and time.
pub record BidRoundView : Type 0 where
  pub task_id : String
  pub task_revision : ℤ
  pub coordination_epoch : ℤ
  pub bid_round : ℤ
  pub round_opened : Option Event
  pub bids_by_device : Assoc Event
  pub view_version : ℕ

-- `min(a, b)`
abbrev min_float : Float → Float → Float
min_float a b = if float_lt b a then b else a

pub record RoundState : Type 0 where
  pub opened : Option Event
  pub bids : Assoc Event

module _ ⦃py : Builtins⦄ where
  -- `float(content.get(name, float("inf")))`
  abbrev time_field : Fields → String → Result Float
  time_field content name = to_float (get_or content name (float (infinite false)))

  take_bid : RoundState → Event → Event → Result RoundState
  take_bid s opening event = do
    opened_until ← time_field opening.content "deadline"
    expires_at ← time_field event.content "expires_at"
    let device_id = text_field event.content "device_id"
    ok (
        if float_lt (min_float opened_until expires_at) event.ts || device_id == ""
        then s
        else record s { bids = insert device_id event s.bids })

  unfoldable pub on_bid : RoundState → Event → Result RoundState
  unfolding take_bid
  on_bid s event = elim s.opened [ none ↦ ok s | some opening ↦ take_bid s opening event ]

  on_round_opened : RoundState → Event → RoundState
  on_round_opened s event = elim s.opened [ none ↦ record s { opened = some event } | some _ ↦ s ]

  unfoldable pub of_round : Fields → ℤ → ℤ → Result Bool
  of_round content epoch bid_round = do
    e ← int_field content "coordination_epoch" (negsuc 0)
    if eq_ℤ e epoch
        then (do r ← int_field content "bid_round" (pos 1); ok (eq_ℤ r bid_round))
        else ok false

  unfoldable pub on_round_event : RoundState → Event → Result RoundState
  unfolding on_round_opened
  on_round_event s event =
      if event.kind == "bid_round_opened"
      then ok (on_round_opened s event)
      else if event.kind == "bid"
      then on_bid s event
      else ok s

  unfoldable pub round_step : String → ℤ → ℤ → ℤ → RoundState → Event → Result RoundState
  round_step task_id revision epoch bid_round s event = do
    matches ← matches_task event task_id revision
    if matches
        then (do
          current ← of_round event.content epoch bid_round
          if current then on_round_event s event else ok s)
        else ok s

  unfoldable pub fold_round : String → ℤ → ℤ → ℤ → RoundState → List Event → Result RoundState
  fold_round task_id revision epoch bid_round s [] = ok s
  fold_round task_id revision epoch bid_round s (event ∷ events) = do
    s' ← round_step task_id revision epoch bid_round s event
    fold_round task_id revision epoch bid_round s' events

  -- `_bid_round_view`
  unfoldable pub bid_round_view : List Event → String → ℤ → ℤ → ℤ → ℕ → Result BidRoundView
  bid_round_view events task_id revision epoch bid_round watermark = do
    s ← fold_round task_id revision epoch bid_round (record { opened = none; bids = [] }) events
    ok (record {
      task_id = task_id;
      task_revision = revision;
      coordination_epoch = epoch;
      bid_round = bid_round;
      round_opened = s.opened;
      bids_by_device = by_key s.bids;
      view_version = watermark;
    })
