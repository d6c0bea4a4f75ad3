-- ===== src/CheckpointedResult.antt =====
-- `CheckpointedResult` of sdk/src/state/checkpoint_result.rs: what the checkpoint says of one
-- operation.
use durable_execution_rust_s.Prelude.{
  ℕ, String, Bool, false, Option, none, is_some, and_then, unwrap_or,
}
use mathlib.Core.Option
use durable_execution_rust_s.Errors.{ErrorObject}
use durable_execution_rust_s.Operation.Kinds.{OperationType, OperationStatus, status_eq}
use durable_execution_rust_s.Operation.Kinds
use durable_execution_rust_s.Operation.Record.{
  Operation, get_result, get_retry_payload, get_attempt,
}

pub record CheckpointedResult : Type 0 where
  pub operation : Option Operation

unfoldable pub empty : CheckpointedResult
empty = record { operation = none }

unfoldable pub is_existent : CheckpointedResult → Bool
is_existent c = is_some c.operation

-- `.map(|op| op.status == s).unwrap_or(false)`.
has_status : OperationStatus → CheckpointedResult → Bool
unfolding status_eq
has_status s c = unwrap_or (Option.map (λ op. status_eq op.status s) c.operation) false

unfoldable pub is_succeeded : CheckpointedResult → Bool
unfolding has_status
is_succeeded = has_status OperationStatus.succeeded

unfoldable pub is_failed : CheckpointedResult → Bool
unfolding has_status
is_failed = has_status OperationStatus.failed

unfoldable pub is_cancelled : CheckpointedResult → Bool
unfolding has_status
is_cancelled = has_status OperationStatus.cancelled

unfoldable pub is_timed_out : CheckpointedResult → Bool
unfolding has_status
is_timed_out = has_status OperationStatus.timed_out

unfoldable pub is_stopped : CheckpointedResult → Bool
unfolding has_status
is_stopped = has_status OperationStatus.stopped

unfoldable pub is_pending : CheckpointedResult → Bool
unfolding has_status
is_pending = has_status OperationStatus.pending

unfoldable pub is_ready : CheckpointedResult → Bool
unfolding has_status
is_ready = has_status OperationStatus.ready

unfoldable pub is_terminal : CheckpointedResult → Bool
unfolding Kinds.is_terminal
is_terminal c = unwrap_or (Option.map (λ op. Kinds.is_terminal op.status) c.operation) false

unfoldable pub status : CheckpointedResult → Option OperationStatus
status c = Option.map (λ op. op.status) c.operation

unfoldable pub operation_type : CheckpointedResult → Option OperationType
operation_type c = Option.map (λ op. op.operation_type) c.operation

-- `get_result` stays shut.
unfoldable pub result : CheckpointedResult → Option String
result c = and_then c.operation get_result

unfoldable pub error : CheckpointedResult → Option ErrorObject
error c = and_then c.operation λ op. op.error

unfoldable pub retry_payload : CheckpointedResult → Option String
retry_payload c = and_then c.operation get_retry_payload

unfoldable pub attempt : CheckpointedResult → Option ℕ
attempt c = and_then c.operation get_attempt

unfoldable pub callback_id : CheckpointedResult → Option String
callback_id c = and_then c.operation λ op. and_then op.callback_details λ d. d.callback_id
