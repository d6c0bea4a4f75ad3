-- ===== src/Lib.antt =====
-- Durable executions: a verification library for aws-durable-execution-sdk/sdk.
--
-- The SDK lets a Lambda function run as a durable execution: every operation of the user's code
-- is checkpointed with a service, and after an interruption the function runs again and replays
-- the operations that the checkpoint holds. Paths below are relative to aws-durable-execution-
-- sdk/.
--
-- The parts and their files:
-- - sdk/src/error.rs: Errors (data, classification, display, ErrorObject).
-- - sdk/src/operation.rs: Operation (Kinds: types and statuses; Record: Operation and the
--   lookup of its result; Update: OperationUpdate and its builders).
-- - sdk/src/client.rs, sdk/src/lambda.rs: Client (responses; the service itself is a
--   parameter).
-- - sdk/src/state/checkpoint_result.rs: CheckpointedResult, what the cache says of one
--   operation.
-- - sdk/src/handlers/replay.rs: Replay (check_replay, check_replay_status; the deserializer is
--   a parameter), with its outcomes in Replay.Laws.
-- - sdk/src/state/execution_state.rs, sdk/src/state/replay_status.rs: State. Model has the
--   state, its constructors and accessors; Cache the local cache (update_local_cache_from_*,
--   with Entries and Retries); Checkpoint create_checkpoint, checkpoint_direct,
--   create_checkpoint_with_response, checkpoint_optimal and complete_execution_*, with Caching
--   and Responses for what a checkpoint leaves in the cache; Loading load_more_operations and
--   load_all_operations; Tracking track_replay. Invariant defines the well-formed states.
-- - The loop `checkpoint_with_retry` of sdk/src/state/batcher.rs, which stands once more in
--   execution_state.rs as `get_operations_with_retry`: Throttle.
-- - sdk/src/state/batcher.rs: Batcher (requests and their sizes; Collect: collect_batch; Order:
--   sort_checkpoint_batch; Process: process_batch).
-- - sdk/src/concurrency.rs: Concurrency. Counters has ExecutionCounters and the completion
--   criteria; Batch the items and results; Executor the tasks of ConcurrentExecutor::execute as
--   a step function, with its invariant (Invariant, Moves, Steps), its progress (Progress), its
--   runs (Runs, Rounds) and the result of a run (Outcome, Values).
-- - sdk/src/serdes.rs: Serdes (JsonSerDes over serde_json, which is a parameter).
-- - sdk/src/config.rs: Config.Retry (step semantics, the retryable error filter);
--   CheckpointingMode is in State.Model, CompletionConfig in Concurrency, ChildConfig and
--   WaitDecision with the handlers.
-- - sdk/src/context.rs: Context (the id generator, child contexts); OperationIdentifier is in
--   Handlers.
-- - sdk/src/handlers/: Handlers. Effects has the effects that the handlers are made of, Updates
--   what `apply_to` leaves of an update. wait.rs: Wait (wait_handler and wait_cancel_handler).
--   step.rs: Step (step_handler; Settled: steps that are over; Replays and Laws: the outcome of
--   a step is that of every later run; Executed; Failures; Cell and Memo: a step as a memo
--   cell). child.rs: Child (child_handler; Executed: when the function runs; Entries, Laws,
--   Replays). wait_for_condition.rs: Condition (wait_for_condition_handler; Polls, Laws).
--   invoke.rs: Invoke (invoke_handler). callback.rs: Callback (callback_handler and the result
--   of a callback; Laws, Replays).
--
-- How they interact: a handler asks State for the checkpointed result of its operation and
-- replays it; what it then does is checkpointed through State.Checkpoint, which calls the
-- service directly or hands the update to the batcher; the answer updates the cache. Map and
-- parallel run their branches in the executor.
--
-- Modelling choices. The state of the world outside, such as the service, is a type `S` that
-- each call takes and returns. A HashMap is an association list without repeated keys, a
-- HashSet a list without repeats. A usize counter wraps at 2 ^ 64 and a u32 attempt counter at
-- 2 ^ 32, as in a release build; the number of tasks is taken to be below 2 ^ 64, and the sum
-- of the completed and the suspended tasks is added without the wrap-around, which it cannot
-- reach. A time is a number of milliseconds. The type of f64 percentages and their comparison
-- are parameters; what is used of them is that more failures of the same total never compare
-- lower. Locks and atomics of State hold plain values: each of its operations is one
-- transition, so is each run of a handler but for the user's code in it. The executor
-- interleaves its tasks at the waits for a permit and for the lock, around the user's future
-- and between two increments of counters; should_complete, which loads the counters one after
-- the other, is one step there. An executor that is given another number of tasks than it was
-- made for is left out; map and parallel pass the same number.
--
-- The user's code is a parameter. The function of a step and the check of a condition change
-- the world outside; the function of a child context may run operations, so it changes the
-- execution state too. The handlers are read with the service's answers left open; where a
-- theorem needs a service that sends no new state with its answers, it says so. JSON is what
-- serde_json makes of it, and a theorem that needs a text to be read back as the value it was
-- written from says so.
--
-- Fuel: `retry_loop` has 6 rounds, the five retries and the first call; `load_all_operations`
-- takes its fuel as an argument, and ranks of page markers say how much is enough; so does the
-- walk over the ancestors in `sort_checkpoint_batch`, with ranks of operations. `sort_by` is
-- stable insertion, as std sorts short slices; for longer ones std promises no order where the
-- comparison is not a total order, and may panic.
--
-- Not modelled: the handlers of map, parallel and promises, which are next; the rest of the
-- durable context, which forwards to the handlers; the Lambda entry, the AWS client, logging,
-- the macros, the testing crate and the examples; a task of the executor that panics; the loop
-- `run` of the batcher. The retry strategies are not modelled: no modelled handler consults
-- one.
mod Prelude
pub mod Errors
pub mod Operation
pub mod Client
pub mod CheckpointedResult
pub mod Replay
pub mod Throttle
pub mod State
pub mod Batcher
pub mod Concurrency
pub mod Handlers
pub mod Serdes
pub mod Config
pub mod Context
