-- ===== src/Handlers/Step.antt =====
-- `step_handler` of sdk/src/handlers/step.rs. Logging and tracing are left out. The user's function is a
-- parameter that changes the world outside; its error is the text that `to_string` gives. The
-- retry strategy of the configuration is only logged by the source, and is left out.
pub mod Cell
pub mod Executed
pub mod Failures
pub mod Laws
pub mod Memo
mod Tests
pub mod Settled
pub mod Replays
use durable_execution_rust_s.Prelude.{
  ℕ, String, ◌<>◌, ◌⊎◌, inl, inr, Bool, true, false, not, ◌&&◌, if◌then◌else◌, Option, none, some,
  unwrap_or,
}
use durable_execution_rust_s.Errors.{
  DurableError, ErrorObject, TerminationReason, Result, ok, err, execution_failure, user_code_from,
  new_error_object,
}
use durable_execution_rust_s.Operation.Kinds.{OperationType, OperationStatus, type_eq, show_status}
use durable_execution_rust_s.Operation.Update.{OperationUpdate}
use durable_execution_rust_s.Operation.Update
use durable_execution_rust_s.Client.{Client, Sender}
use durable_execution_rust_s.CheckpointedResult.{CheckpointedResult}
use durable_execution_rust_s.CheckpointedResult
use durable_execution_rust_s.Replay.{type_mismatch}
use durable_execution_rust_s.Serdes.{JsonSerDes, or_ser_des}
use durable_execution_rust_s.Config.Retry.{StepSemantics, RetryableErrorFilter, is_retryable}
use durable_execution_rust_s.Handlers.{OperationIdentifier, apply_to}
use durable_execution_rust_s.Handlers.Effects.{
  Handler, pure, fail, lift, call, stored, track, arn, checkpoint, ◌>>=◌, ◌>>◌,
}

pub record StepContext : Type 0 where
  pub operation_id : String
  pub parent_id : Option String
  pub name : Option String
  pub durable_execution_arn : String
  pub attempt : ℕ
  pub retry_payload : Option String

pub record StepConfig (R : Type 0) : Type 0 where
  pub step_semantics : StepSemantics
  pub retryable_error_filter : Option (RetryableErrorFilter R)

-- The stored error of a failed step.
failed_step : Option ErrorObject → DurableError
unfolding user_code_from execution_failure
failed_step (some e) = user_code_from e
failed_step none = execution_failure "Step failed with unknown error"

-- The status is there, as `unwrap` wants.
interrupted_step : Option OperationStatus → DurableError
interrupted_step (some s) =
    DurableError.execution ("Step was " <> show_status s) TerminationReason.step_interrupted
interrupted_step none = DurableError.execution "Step was " TerminationReason.step_interrupted

unfoldable pub create_start_update : OperationIdentifier → OperationUpdate
unfolding apply_to
create_start_update id = apply_to id (Update.start id.operation_id OperationType.step)

unfoldable pub create_succeed_update : OperationIdentifier → Option String → OperationUpdate
unfolding apply_to
create_succeed_update id result =
    apply_to id (Update.succeed id.operation_id OperationType.step result)

unfoldable pub create_fail_update : OperationIdentifier → ErrorObject → OperationUpdate
unfolding apply_to
create_fail_update id error = apply_to id (Update.fail id.operation_id OperationType.step error)

unfoldable pub step_context : OperationIdentifier → String → CheckpointedResult → StepContext
step_context id durable_execution_arn c = record {
  operation_id = id.operation_id;
  parent_id = id.parent_id;
  name = id.name;
  durable_execution_arn = durable_execution_arn;
  attempt = unwrap_or (CheckpointedResult.attempt c) 0;
  retry_payload = CheckpointedResult.retry_payload c;
}

is_at_most_once : StepSemantics → Bool
is_at_most_once StepSemantics.at_most_once_per_retry = true
is_at_most_once StepSemantics.at_least_once_per_retry = false

module _ {T S : Type 0} where
  as_replayed : T → Handler S (Option T)
  as_replayed v = pure (some v)

  or_execute : Option T → Handler S T → Handler S T
  or_execute (some v) rest = pure v
  or_execute none rest = rest

  check_type :
      Option OperationType → OperationIdentifier → Handler S (Option T) → Handler S (Option T)
  unfolding type_mismatch
  check_type none id rest = rest
  check_type (some found) id rest =
      if not (type_eq found OperationType.step)
      then fail (type_mismatch OperationType.step found id.operation_id)
      else rest

module _ {T : Type 0} (serdes : JsonSerDes T) where
  -- A succeeded step: its stored result, or `null`.
  null_value : T ⊎ String → Result T
  null_value (inl v) = ok v
  null_value (inr e) =
      err (DurableError.ser_des "Step succeeded but no result was stored and type requires a value")

  unfoldable pub succeeded_value : Option String → Result T
  unfolding null_value
  succeeded_value (some text) =
      or_ser_des "Failed to deserialize checkpointed result" (serdes.deserialize text)
  succeeded_value none = null_value (serdes.deserialize "null")

  module _ {S : Type 0} where
    -- The branches on the status of a stored step.
    by_status : CheckpointedResult → OperationIdentifier → Handler S (Option T)
    unfolding as_replayed succeeded_value failed_step interrupted_step
        CheckpointedResult.is_succeeded CheckpointedResult.result CheckpointedResult.is_failed
        CheckpointedResult.error CheckpointedResult.is_terminal CheckpointedResult.status
        CheckpointedResult.is_ready CheckpointedResult.is_pending
    by_status c id =
        if CheckpointedResult.is_succeeded c
        then (track id.operation_id
            >> (lift (succeeded_value (CheckpointedResult.result c)) >>= as_replayed))
        else if CheckpointedResult.is_failed c
        then (track id.operation_id >> fail (failed_step (CheckpointedResult.error c)))
        else if CheckpointedResult.is_terminal c
        then (track id.operation_id >> fail (interrupted_step (CheckpointedResult.status c)))
        else if CheckpointedResult.is_ready c
        then pure none
        else if CheckpointedResult.is_pending c
        then fail (DurableError.suspend none)
        else pure none

    -- `none` when the step is to be executed.
    unfoldable pub handle_replay : CheckpointedResult → OperationIdentifier → Handler S (Option T)
    unfolding by_status check_type CheckpointedResult.is_existent CheckpointedResult.operation_type
    handle_replay c id =
        if not (CheckpointedResult.is_existent c)
        then pure none
        else check_type (CheckpointedResult.operation_type c) id (by_status c id)

module _ {R : Type 0} (is_match : R → String → Bool) {T : Type 0} where
  -- The filter is asked about an error, and the result is returned either way.
  filtered : Option (RetryableErrorFilter R) → T ⊎ String → T ⊎ String
  unfolding is_retryable
  filtered (some filter) (inr e) = if not (is_retryable is_match filter e) then inr e else inr e
  filtered _ result = result

module _ {R : Type 0} (is_match : R → String → Bool) {T S : Type 0} where
  execute_with_retry :
      (StepContext → S → (T ⊎ String) × S) → StepContext → StepConfig R → S → (T ⊎ String) × S
  unfolding filtered
  execute_with_retry func context config w =
      let (result, w') = func context w in
      (filtered is_match config.retryable_error_filter result, w')

module _ {T S : Type 0} (serdes : JsonSerDes T) (client : Client S) (send : Sender S) where
  pub checkpoint_result : OperationIdentifier → T ⊎ String → Handler S T
  unfolding create_succeed_update create_fail_update new_error_object
  checkpoint_result id (inl value) = do
    text ← lift (or_ser_des "Failed to serialize step result" (serdes.serialize value))
    checkpoint client send (create_succeed_update id (some text))
    pure value
  checkpoint_result id (inr e) = do
    checkpoint client send (create_fail_update id (new_error_object "UserCodeError" e))
    fail (DurableError.user_code e "UserCodeError" none)

  -- The START checkpoint of the at-most-once mode, which a READY step skips.
  pub checkpoint_start : StepSemantics → Bool → OperationIdentifier → Handler S (Unit {0})
  unfolding is_at_most_once create_start_update
  checkpoint_start semantics ready id =
      if is_at_most_once semantics && not ready
      then checkpoint client send (create_start_update id)
      else pure tt

  -- The step's execution `run`, between its checkpoints.
  pub run_step :
      (StepContext → S → (T ⊎ String) × S)
      → CheckpointedResult
      → OperationIdentifier
      → StepSemantics
      → Handler S T
  unfolding checkpoint_start checkpoint_result step_context CheckpointedResult.is_ready
  run_step run c id semantics = do
    checkpoint_start semantics (CheckpointedResult.is_ready c) id
    name ← arn
    result ← call (run (step_context id name c))
    checkpoint_result id result

  -- The replay of the stored step, or else its execution.
  replay_or : OperationIdentifier → (CheckpointedResult → Handler S T) → Handler S T
  unfolding or_execute handle_replay
  replay_or id execute = do
    c ← stored id.operation_id
    found ← handle_replay serdes c id
    or_execute found (execute c)

  module _ {R : Type 0} (is_match : R → String → Bool) where
    -- `execute_at_most_once` and `execute_at_least_once`.
    unfoldable pub execute_step :
        (StepContext → S → (T ⊎ String) × S)
        → CheckpointedResult
        → OperationIdentifier
        → StepConfig R
        → Handler S T
    unfolding run_step execute_with_retry
    execute_step func c id config =
        run_step (λ context. execute_with_retry is_match func context config) c id
          config.step_semantics

    unfoldable pub step_handler :
        (StepContext → S → (T ⊎ String) × S) → OperationIdentifier → StepConfig R → Handler S T
    unfolding replay_or execute_step
    step_handler func id config = replay_or id (λ c. execute_step func c id config)
