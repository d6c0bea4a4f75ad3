-- ===== src/Handlers/Wait.antt =====
-- `wait_handler` and `wait_cancel_handler` of sdk/src/handlers/wait.rs. Logging and tracing are left
-- out. The client and the sender are those of the execution state.
pub mod Laws
mod Tests
use durable_execution_rust_s.Prelude.{
  ℕ, String, ◌<>◌, show_nat, ltb, if◌then◌else◌, Bool, true, false, not, Option, none, some,
}
use durable_execution_rust_s.Errors.{DurableError, Result, ok, err}
use durable_execution_rust_s.Operation.Kinds.{OperationType, type_eq, show_type}
use durable_execution_rust_s.Operation.Update.{OperationUpdate, start_wait, cancel}
use durable_execution_rust_s.Client.{Client, Sender}
use durable_execution_rust_s.CheckpointedResult.{CheckpointedResult}
use durable_execution_rust_s.CheckpointedResult
use durable_execution_rust_s.State.Model.{ExecutionState, get_checkpoint_result}
use durable_execution_rust_s.State.Checkpoint.{Run, create_checkpoint}
use durable_execution_rust_s.State.Tracking.{track_replay}
use durable_execution_rust_s.Handlers.{OperationIdentifier, apply_to}

abbrev pub min_wait_seconds : ℕ
min_wait_seconds = 1

too_short : ℕ → DurableError
too_short seconds = DurableError.validation (
    "Wait duration must be at least "
    <> show_nat min_wait_seconds
    <> " second(s), got "
    <> show_nat seconds
    <> " seconds")

not_a_wait : OperationType → String → DurableError
not_a_wait found id =
    DurableError.non_deterministic
      ("Expected Wait operation but found " <> show_type found <> " at operation_id " <> id)
      (some id)

cannot_cancel : OperationType → String → DurableError
cannot_cancel found id =
    DurableError.validation (
      "Cannot cancel operation " <> id <> ": expected WAIT operation but found " <> show_type found)

unfoldable pub create_start_update : OperationIdentifier → ℕ → OperationUpdate
unfolding apply_to start_wait
create_start_update id seconds = apply_to id (start_wait id.operation_id seconds)

module _ {S : Type 0} where
  -- `if op_type != OperationType::Wait { return Err(..) }`, then the rest.
  if_wait :
      (OperationType → DurableError)
      → Option OperationType
      → ExecutionState
      → S
      → Run (Unit {0}) S
      → Run (Unit {0}) S
  if_wait mismatch none s w rest = rest
  if_wait mismatch (some found) s w rest =
      if not (type_eq found OperationType.wait) then (err (mismatch found), s, w) else rest

  -- After the START checkpoint.
  suspended : Run (Unit {0}) S → Run (Unit {0}) S
  suspended (ok done, s, w) = (err (DurableError.suspend none), s, w)
  suspended (err e, s, w) = (err e, s, w)

  module _ (client : Client S) (send : Sender S) where
    start_wait_operation : OperationIdentifier → ℕ → ExecutionState → S → Run (Unit {0}) S
    unfolding suspended create_checkpoint create_start_update
    start_wait_operation id seconds s w =
        suspended (create_checkpoint client send (create_start_update id seconds) true s w)

    -- The branches on the status of a stored wait.
    stored_wait :
        CheckpointedResult
        → OperationIdentifier
        → ExecutionState
        → S
        → Run (Unit {0}) S
        → Run (Unit {0}) S
    unfolding track_replay CheckpointedResult.is_succeeded CheckpointedResult.is_cancelled
        CheckpointedResult.is_terminal
    stored_wait c id s w rest =
        if CheckpointedResult.is_succeeded c
        then (ok tt, track_replay s id.operation_id, w)
        else if CheckpointedResult.is_cancelled c
        then (ok tt, track_replay s id.operation_id, w)
        else if not (CheckpointedResult.is_terminal c)
        then (err (DurableError.suspend none), s, w)
        else rest

    check_stored :
        CheckpointedResult
        → OperationIdentifier
        → ExecutionState
        → S
        → Run (Unit {0}) S
        → Run (Unit {0}) S
    unfolding if_wait not_a_wait stored_wait CheckpointedResult.is_existent
        CheckpointedResult.operation_type
    check_stored c id s w rest =
        if CheckpointedResult.is_existent c
        then if_wait (λ found. not_a_wait found id.operation_id)
            (CheckpointedResult.operation_type c) s w (stored_wait c id s w rest)
        else rest

    unfoldable pub wait_handler : ℕ → OperationIdentifier → ExecutionState → S → Run (Unit {0}) S
    unfolding too_short check_stored start_wait_operation get_checkpoint_result
    wait_handler seconds id s w =
        if ltb seconds min_wait_seconds
        then (err (too_short seconds), s, w)
        else check_stored (get_checkpoint_result s id.operation_id) id s w
            (start_wait_operation id seconds s w)

    cancel_stored : CheckpointedResult → String → ExecutionState → S → Run (Unit {0}) S
    unfolding if_wait cannot_cancel create_checkpoint cancel CheckpointedResult.is_existent
        CheckpointedResult.operation_type CheckpointedResult.is_terminal
    cancel_stored c id s w =
        if not (CheckpointedResult.is_existent c)
        then (ok tt, s, w)
        else if_wait (λ found. cannot_cancel found id) (CheckpointedResult.operation_type c) s w
            (if CheckpointedResult.is_terminal c
              then (ok tt, s, w)
              else create_checkpoint client send (cancel id OperationType.wait) true s w)

    unfoldable pub wait_cancel_handler : String → ExecutionState → S → Run (Unit {0}) S
    unfolding cancel_stored get_checkpoint_result
    wait_cancel_handler id s w = cancel_stored (get_checkpoint_result s id) id s w
