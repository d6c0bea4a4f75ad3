-- ===== src/Handlers/Condition.antt =====
-- `wait_for_condition_handler` of sdk/src/handlers/wait_for_condition.rs, with `WaitDecision` of
-- sdk/src/config.rs. Logging is left out. The user's check and the wait strategy are parameters; the
-- check changes the world outside, and its error is the text that `{}` gives. The delay of a decision
-- is its number of seconds. The attempt is a usize, whose addition wraps around as in a release
-- build; in a debug build it panics.
pub mod Laws
pub mod Polls
mod Tests
use durable_execution_rust_s.Prelude.{
  ℕ, ◌+◌, ◌%◌, ◌^◌, ◌==◌, String, ◌<>◌, ◌⊎◌, inl, inr, not, ◌&&◌, if◌then◌else◌, Option, none, some,
}
use durable_execution_rust_s.Errors.{
  DurableError, ErrorObject, TerminationReason, Result, ok, execution_failure, user_code_from,
  new_error_object,
}
use durable_execution_rust_s.Operation.Kinds.{OperationType, type_eq}
use durable_execution_rust_s.Operation.Update.{OperationUpdate, with_sub_type}
use durable_execution_rust_s.Operation.Update
use durable_execution_rust_s.Client.{Client, Sender}
use durable_execution_rust_s.CheckpointedResult.{CheckpointedResult}
use durable_execution_rust_s.CheckpointedResult
use durable_execution_rust_s.Replay.{type_mismatch}
use durable_execution_rust_s.Serdes.{JsonSerDes, or_ser_des}
use durable_execution_rust_s.Handlers.{OperationIdentifier, apply_to}
use durable_execution_rust_s.Handlers.Effects.{
  Handler, pure, fail, lift, call, stored, track, checkpoint, ◌>>=◌, ◌>>◌,
}

pub data WaitDecision : Type 0 where
  continue : ℕ → WaitDecision
  done : WaitDecision

pub record WaitForConditionState (U : Type 0) : Type 0 where
  pub user_state : U
  pub attempt : ℕ  -- usize

-- The timeout and the serializer of the configuration are not read by the handler.
pub record WaitForConditionConfig (U : Type 0) : Type 0 where
  pub initial_state : U
  pub wait_strategy : U → ℕ → WaitDecision

pub record WaitForConditionContext : Type 0 where
  pub attempt : ℕ
  pub max_attempts : Option ℕ

abbrev labelled : OperationUpdate → OperationUpdate
labelled u = with_sub_type u "wait_for_condition"

unfoldable pub create_start_update : OperationIdentifier → OperationUpdate
unfolding apply_to with_sub_type
create_start_update id = apply_to id (labelled (Update.start id.operation_id OperationType.step))

unfoldable pub create_succeed_update : OperationIdentifier → Option String → OperationUpdate
unfolding apply_to with_sub_type
create_succeed_update id result =
    apply_to id (labelled (Update.succeed id.operation_id OperationType.step result))

unfoldable pub create_fail_update : OperationIdentifier → ErrorObject → OperationUpdate
unfolding apply_to with_sub_type
create_fail_update id error =
    apply_to id (labelled (Update.fail id.operation_id OperationType.step error))

unfoldable pub create_retry_update :
    OperationIdentifier → Option String → Option ℕ → OperationUpdate
unfolding apply_to with_sub_type
create_retry_update id payload delay =
    apply_to id (labelled (Update.retry id.operation_id OperationType.step payload delay))

failed_wait : Option ErrorObject → DurableError
unfolding user_code_from execution_failure
failed_wait (some e) = user_code_from e
failed_wait none = execution_failure "wait_for_condition failed with unknown error"

module _ {T S : Type 0} where
  check_type :
      Option OperationType → OperationIdentifier → Handler S (Option T) → Handler S (Option T)
  unfolding type_mismatch
  check_type none id rest = rest
  check_type (some found) id rest =
      if not (type_eq found OperationType.step)
      then fail (type_mismatch OperationType.step found id.operation_id)
      else rest

module _ {T S : Type 0} (serdes : JsonSerDes T) where
  -- The stored result of a wait that succeeded, if it has one.
  with_result : Option String → Handler S (Option T) → Handler S (Option T)
  with_result (some text) rest = do
    v ← lift (or_ser_des "Failed to deserialize checkpointed result" (serdes.deserialize text))
    pure (some v)
  with_result none rest = rest

  -- A stored wait that did not succeed: only a failure ends it.
  unless_failed : CheckpointedResult → OperationIdentifier → Handler S (Option T)
  unfolding failed_wait CheckpointedResult.is_failed CheckpointedResult.error
  unless_failed c id =
      if CheckpointedResult.is_failed c
      then (track id.operation_id >> fail (failed_wait (CheckpointedResult.error c)))
      else pure none

  by_status : CheckpointedResult → OperationIdentifier → Handler S (Option T)
  unfolding with_result unless_failed CheckpointedResult.is_succeeded CheckpointedResult.result
  by_status c id =
      if CheckpointedResult.is_succeeded c
      then (track id.operation_id >> with_result (CheckpointedResult.result c) (unless_failed c id))
      else unless_failed c id

  -- `none` when the condition is to be checked.
  unfoldable pub handle_replay : CheckpointedResult → OperationIdentifier → Handler S (Option T)
  unfolding by_status check_type CheckpointedResult.is_existent CheckpointedResult.operation_type
  handle_replay c id =
      if not (CheckpointedResult.is_existent c)
      then pure none
      else check_type (CheckpointedResult.operation_type c) id (by_status c id)

module _ {U : Type 0} (serdes : JsonSerDes (WaitForConditionState U))
    (config : WaitForConditionConfig U) where
  from_attempt : Option ℕ → Result (WaitForConditionState U)
  from_attempt (some attempt) = ok (record { user_state = config.initial_state; attempt = attempt })
  from_attempt none = ok (record { user_state = config.initial_state; attempt = 1 })

  from_payload : Option String → Result (WaitForConditionState U) → Result (WaitForConditionState U)
  from_payload (some payload) rest =
      or_ser_des "Failed to deserialize wait_for_condition state" (serdes.deserialize payload)
  from_payload none rest = rest

  unfoldable pub get_current_state : CheckpointedResult → Result (WaitForConditionState U)
  unfolding from_attempt from_payload CheckpointedResult.retry_payload CheckpointedResult.attempt
  get_current_state c =
      from_payload (CheckpointedResult.retry_payload c)
        (from_attempt (CheckpointedResult.attempt c))

-- `attempt + 1` on usize.
unfoldable pub attempt_after : ℕ → ℕ
attempt_after n = (n + 1) % 2 ^ 64

-- The error that is stored when the strategy ends the wait.
unfoldable pub attempts_error : String → ErrorObject
unfolding new_error_object
attempts_error e =
    new_error_object "MaxAttemptsExceeded"
      ("Max attempts exceeded for wait_for_condition. Last error: " <> e)

module _ {U T S : Type 0} (serdes : JsonSerDes T)
    (state_serdes : JsonSerDes (WaitForConditionState U)) (client : Client S) (send : Sender S)
    (id : OperationIdentifier) (config : WaitForConditionConfig U) where
  -- The condition is not met: the strategy decides.
  pub on_decision : WaitDecision → WaitForConditionState U → String → Handler S T
  unfolding create_retry_update create_fail_update attempts_error attempt_after
  on_decision WaitDecision.done current e = do
    checkpoint client send (create_fail_update id (attempts_error e))
    fail (
        DurableError.execution "Max attempts exceeded for wait_for_condition"
          TerminationReason.execution_error)
  on_decision (WaitDecision.continue delay) current e = do
    text ← lift (
        or_ser_des "Failed to serialize wait_for_condition state"
          (state_serdes.serialize (record current { attempt = attempt_after current.attempt })))
    checkpoint client send (create_retry_update id (some text) (some delay))
    fail (DurableError.suspend none)

  on_check : WaitForConditionState U → T ⊎ String → Handler S T
  unfolding on_decision create_succeed_update
  on_check current (inl v) = do
    text ← lift (or_ser_des "Failed to serialize wait_for_condition result" (serdes.serialize v))
    checkpoint client send (create_succeed_update id (some text))
    pure v
  on_check current (inr e) =
      on_decision (config.wait_strategy current.user_state current.attempt) current e

  -- The START checkpoint, of the first attempt only.
  pub checkpoint_start : CheckpointedResult → ℕ → Handler S (Unit {0})
  unfolding create_start_update CheckpointedResult.is_existent
  checkpoint_start c attempt =
      if attempt == 1 && not (CheckpointedResult.is_existent c)
      then checkpoint client send (create_start_update id)
      else pure tt

  module _ (check : U → WaitForConditionContext → S → (T ⊎ String) × S) where
    -- One check of the condition.
    pub poll : CheckpointedResult → WaitForConditionState U → Handler S T
    unfolding checkpoint_start on_check
    poll c current = do
      checkpoint_start c current.attempt
      result ←
          call
            (check current.user_state (record { attempt = current.attempt; max_attempts = none }))
      on_check current result

    or_poll : CheckpointedResult → Option T → Handler S T
    unfolding poll get_current_state
    or_poll c (some v) = pure v
    or_poll c none = lift (get_current_state state_serdes config c) >>= poll c

    unfoldable pub wait_for_condition_handler : Handler S T
    unfolding handle_replay or_poll
    wait_for_condition_handler = do
      c ← stored id.operation_id
      found ← handle_replay serdes c id
      or_poll c found
