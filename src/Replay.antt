-- ===== src/Replay.antt =====
-- Replay detection: sdk/src/handlers/replay.rs. The JSON deserializer is a parameter: it gives the
-- value, or the text of its error.
pub mod Laws
mod Tests
use durable_execution_rust_s.Prelude.{
  String, ◌<>◌, Bool, true, false, not, Option, none, some, ◌⊎◌, inl, inr, if◌then◌else◌,
}
use durable_execution_rust_s.Errors.{
  DurableError, ErrorObject, TerminationReason, Result, ok, err, ◌>>=◌, execution_failure,
  user_code_from,
}
use durable_execution_rust_s.Operation.Kinds.{
  OperationType, OperationStatus, type_eq, show_type, show_status,
}
use durable_execution_rust_s.CheckpointedResult.{CheckpointedResult}
use durable_execution_rust_s.CheckpointedResult

pub data ReplayResult {ℓ} (T : Type ℓ) : Type ℓ where
  replayed : T → ReplayResult T
  not_found in_progress : ReplayResult T

-- The error when the stored type is not the expected one.
unfoldable pub type_mismatch : OperationType → OperationType → String → DurableError
type_mismatch expected found id =
    DurableError.non_deterministic
      ("Expected "
        <> show_type expected
        <> " operation but found "
        <> show_type found
        <> " at operation_id "
        <> id)
      (some id)

-- `if op_type != expected_type { return Err(..) }`, then the rest, in `check_replay`.
check_type {ℓ} : {A : Type ℓ} → OperationType → String → Option OperationType → Result A → Result A
unfolding type_mismatch
check_type expected id none rest = rest
check_type expected id (some found) rest =
    if not (type_eq found expected) then err (type_mismatch expected found id) else rest

-- The stored error of a failed operation.
stored_error : Option ErrorObject → DurableError
unfolding user_code_from execution_failure
stored_error (some e) = user_code_from e
stored_error none = execution_failure "Operation failed with unknown error"

-- A terminal state other than the ones above it; the status is there, as `unwrap` wants.
was_status : Option OperationStatus → DurableError
was_status (some s) =
    DurableError.execution ("Operation was " <> show_status s) TerminationReason.step_interrupted
was_status none = DurableError.execution "Operation was " TerminationReason.step_interrupted

-- What `check_replay` does from the failed state on.
unsuccessful {ℓ} : {T : Type ℓ} → CheckpointedResult → Result (ReplayResult T)
unfolding stored_error was_status CheckpointedResult.is_failed CheckpointedResult.error
    CheckpointedResult.is_terminal CheckpointedResult.status
unsuccessful c =
    if CheckpointedResult.is_failed c
    then err (stored_error (CheckpointedResult.error c))
    else if CheckpointedResult.is_terminal c
    then err (was_status (CheckpointedResult.status c))
    else ok in_progress

module _ {ℓ} {T : Type ℓ} (deserialize : String → T ⊎ String) where
  decoded : T ⊎ String → Result (ReplayResult T)
  decoded (inl v) = ok (replayed v)
  decoded (inr e) = err (DurableError.ser_des ("Failed to deserialize checkpointed result: " <> e))

  -- The branch of a succeeded operation: without a stored result it falls through.
  succeeded_branch : Option String → Result (ReplayResult T) → Result (ReplayResult T)
  unfolding decoded
  succeeded_branch (some text) rest = decoded (deserialize text)
  succeeded_branch none rest = rest

  unfoldable pub check_replay :
      CheckpointedResult → OperationType → String → Result (ReplayResult T)
  unfolding check_type unsuccessful succeeded_branch CheckpointedResult.is_existent
      CheckpointedResult.operation_type CheckpointedResult.is_succeeded CheckpointedResult.result
  check_replay c expected id =
      let rest = unsuccessful c in
      if not (CheckpointedResult.is_existent c)
      then ok not_found
      else check_type expected id (CheckpointedResult.operation_type c) (
          if CheckpointedResult.is_succeeded c
          then succeeded_branch (CheckpointedResult.result c) rest
          else rest)

-- `check_replay_status` has its own copy of the checks, which follows.
check_status_type : OperationType → String → Option OperationType → Result Bool → Result Bool
unfolding type_mismatch
check_status_type expected id none rest = rest
check_status_type expected id (some found) rest =
    if not (type_eq found expected) then err (type_mismatch expected found id) else rest

stored_status_error : Option ErrorObject → DurableError
unfolding user_code_from execution_failure
stored_status_error (some e) = user_code_from e
stored_status_error none = execution_failure "Operation failed with unknown error"

status_was : Option OperationStatus → DurableError
status_was (some s) =
    DurableError.execution ("Operation was " <> show_status s) TerminationReason.step_interrupted
status_was none = DurableError.execution "Operation was " TerminationReason.step_interrupted

-- From the failed state on.
unsuccessful_status : CheckpointedResult → Result Bool
unfolding stored_status_error status_was CheckpointedResult.is_failed CheckpointedResult.error
    CheckpointedResult.is_terminal CheckpointedResult.status
unsuccessful_status c =
    if CheckpointedResult.is_failed c
    then err (stored_status_error (CheckpointedResult.error c))
    else if CheckpointedResult.is_terminal c
    then err (status_was (CheckpointedResult.status c))
    else ok false

unfoldable pub check_replay_status : CheckpointedResult → OperationType → String → Result Bool
unfolding check_status_type unsuccessful_status CheckpointedResult.is_existent
    CheckpointedResult.operation_type CheckpointedResult.is_succeeded
check_replay_status c expected id =
    if not (CheckpointedResult.is_existent c)
    then ok false
    else check_status_type expected id (CheckpointedResult.operation_type c)
        (if CheckpointedResult.is_succeeded c then ok true else unsuccessful_status c)
