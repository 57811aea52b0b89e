-- ===== src/Lib.antt =====
-- Blackboard coordination of field devices: the event board and the rules around it.
--
-- Devices and a coordinator share one event stream. Every request goes through `Blackboard.append`
-- (blackboard/board.py), which checks the envelope and the payload of an event
-- (blackboard/validation.py), answers repetitions and conflicts from three indexes, compares a v2
-- event that moves a task with the state of the task that is folded from the stream
-- (blackboard/view.py), stamps the event, commits it, and delivers it to the subscribers. A
-- coordinator plans over the same projections: devices bid on the slots of a task, a policy matches
-- devices and slots, and a validator guards the plan (coordination/policy.py). What a process must not
-- lose (its place in the stream, the events that it has yet to append, its sessions) is kept in files
-- (coordination/file_session_store.py). An agent answers each event of its task by a pure step from its
-- session to the next one and to effects: a bid, the submission of an action, or a clean-up
-- (coordination/agent_loop.py). Beside these stand the safety gate (safety/), the life cycle of skill
-- candidates (assets/emergence.py), the ranking of bids (coordination/conflict.py) and the match of
-- capabilities (access/capability_matcher.py).
--
-- Which file models what:
-- - Base: names passed on from the libraries, Boolean tests, lists over the native numbers, integers,
--   and association lists for the program's dicts (`lookup` is `get`, `insert` is `d[k] = v`).
-- - Python: the built-ins. Python/Result is a result with the exceptions that the code can raise, and
--   the checks that answer a rejection code or `None`. Python/Value is JSON values with `int()`,
--   `float()`, `str()`, `==`, truth and membership in a set; Python/Json is the comparison of
--   `json.dumps(..., sort_keys=True)`; Python/Text is `strip` and `upper`.
-- - Contracts: contracts/blackboard_event.py.
-- - Validation: blackboard/validation.py. Each `_validate_x` is `validate_x`.
-- - View: blackboard/view.py. View/Match has `_revision`, `_matches_task` and
--   `_effective_task_revisions`; View/Task has one function per branch of the fold in
--   `_task_coordination_view`, and View/Fold the fold and `_terminal_view`; View/Rounds, View/Actions
--   and View/Busy have `_bid_round_view`, `_action_view` and `_active_assignment_map`.
-- - Board: blackboard/board.py. Board/State is the object's fields with leases and answers,
--   Board/Contract `_validate_event`, Board/Gate `_validate_v2_transition_locked`, Board/Append
--   `append`, and Board/Reads `read_since`, `read_events` and `subscribe`. Board/History is the step
--   relation of all operations that change a board.
-- - Policy: coordination/policy.py over the dataclasses of coordination/models.py. Policy/Bids has
--   `EligibilityBidEngine`, Policy/Matching `deterministic_maximum_matching` and the fallback policy,
--   Policy/Violations and Policy/Validate `MinimalPlanValidator`.
-- - Safety: safety/reversibility.py, safety/guardrail.py, safety/estop.py, and in Safety/Services
--   assets/emergence.py, coordination/conflict.py and access/capability_matcher.py.
-- - Sessions: coordination/file_session_store.py. Sessions/Files is the file system under a store's
--   root, Sessions/Codec events and records as JSON values, Sessions/Outbox `FileOutboxStore`,
--   Sessions/Tasks `FileTaskSessionStore`, and Sessions/Steps the step relation of all operations that
--   write or remove a file. `stage_event` and `stage_task_event` are one body at two directories, and
--   so are the calls that resolve and reject.
-- - Agent: coordination/agent_loop.py. Agent/Step is `PureAgentLoop.step`, Agent/Rounds, Agent/Assigned
--   and Agent/Loop its handlers (`on_round_opened` is `_on_bid_round_opened`, `on_assigned` is
--   `_on_task_assigned`, `on_end` both `_on_task_done` and `_on_task_failed`), and Agent/Intents
--   `DeterministicActionPolicy` of coordination/action_executor.py with the events that an agent makes.
-- - Publisher: coordination/publisher.py, `DurableEventPublisher` over an outbox and a board.
-- - Examples: the theorems at concrete streams, boards, plans, stores, agents and actions.
--
-- State and results. A board is a record that each operation takes and gives back. An operation that
-- can raise gives a `Result`, so an exception is a value and leaves no board. The caller's event, which
-- `append` stamps, is part of the outcome. The board's lock makes the operations a sequence: `Step` is
-- one call, and `Reach` any number of them. The clock is an argument of `append`.
--
-- Bounds. Loops are recursion on the list that they walk, and only the recursion of `augment` takes
-- fuel: one more than there are edges, which is enough since each call of a chain visits a device that
-- was not visited. Python's own limit on the depth of calls is not modelled: the code raises a
-- `RecursionError` on a chain of some thousand devices, where the model answers. Python integers have no
-- bound, and are the integers here; `float()` of an integer raises from 2 ^ 1024 - 2 ^ 970 on.
--
-- Parameters. `repr` of a float, a list or a dict, and the numbers that `int` and `float` read from a
-- text, belong to the interpreter: they are the instance argument `Builtins`, and no theorem assumes
-- anything of them. The arithmetic of doubles, which rounds, is the instance argument `Arithmetic`; one
-- theorem assumes that a difference is negative exactly when the first number is below the second.
-- SHA-256 is the instance argument `Digest`, of which nothing is assumed: where two texts had one
-- digest, they would share a file.
--
-- Not modelled: payloads hold JSON values under text keys (no tuples, sets, Enum members or objects);
-- a float is an exact rational, an infinity or not a number, so the sign of zero and the rounding of
-- huge integers are lost; the fields of an event have the types that the dataclass declares. Left out
-- of the board and the views are the agent snapshots, the evidence view, the legacy overview, the wait
-- of `read_since`, and handlers that call the board during a delivery. Of the stores, directories,
-- temporary files and the operating system's paths are left out, and a file that a crash cuts short
-- cannot occur since a write replaces a file at once. The texts of `json.dumps`, where a
-- fingerprint is taken of them, are the instance argument `JsonText`. Of the repository the coordinator,
-- the agent processes, the action executor, the tools, the memory, the telemetry and the runtime are not
-- modelled: the larger part of them is input and output around the board.
pub mod Base
pub mod Python
pub mod Contracts
pub mod Validation
pub mod View
pub mod Board
pub mod Policy
pub mod Safety
pub mod Sessions
pub mod Agent
pub mod Publisher
pub mod Examples
