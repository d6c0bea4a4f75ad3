-- ===== src/Handlers/Invoke.antt =====
-- `invoke_handler` of sdk/src/handlers/invoke.rs. Logging and tracing are left out. Of the
-- configuration the source reads the tenant only.
pub mod Laws
mod Tests
use durable_execution_rust_s.Prelude.{String, ◌<>◌, not, if◌then◌else◌, Option, none, some}
use durable_execution_rust_s.Errors.{DurableError, ErrorObject, TerminationReason, Result, ok, err}
use durable_execution_rust_s.Operation.Kinds.{OperationType, OperationStatus, type_eq, show_status}
use durable_execution_rust_s.Operation.Update.{OperationUpdate, with_chained_invoke_options}
use durable_execution_rust_s.Operation.Update
use durable_execution_rust_s.Client.{Client, Sender}
use durable_execution_rust_s.CheckpointedResult.{CheckpointedResult}
use durable_execution_rust_s.CheckpointedResult
use durable_execution_rust_s.Replay.{type_mismatch}
use durable_execution_rust_s.Serdes.{JsonSerDes, or_ser_des}
use durable_execution_rust_s.Handlers.{OperationIdentifier, apply_to}
use durable_execution_rust_s.Handlers.Effects.{
  Handler, pure, fail, lift, stored, track, checkpoint, ◌>>=◌, ◌>>◌,
}

pub record InvokeConfig : Type 0 where
  pub tenant_id : Option String

-- `DurableError::invocation`.
unfoldable pub invocation : String → DurableError
invocation message = DurableError.invocation message TerminationReason.invocation_error

unfoldable pub create_invoke_start_update :
    OperationIdentifier → String → String → InvokeConfig → OperationUpdate
unfolding apply_to with_chained_invoke_options
create_invoke_start_update id function_name payload config = apply_to id (
    with_chained_invoke_options
      (record (Update.start id.operation_id OperationType.invoke) { result = some payload })
      function_name config.tenant_id)

failed_invoke : Option ErrorObject → DurableError
unfolding invocation
failed_invoke (some e) = invocation e.error_message
failed_invoke none = invocation "Invoke failed with unknown error"

-- The status is there, as `unwrap` wants.
ended_invoke : Option OperationStatus → DurableError
unfolding invocation
ended_invoke (some status) = invocation ("Invoke was " <> show_status status)
ended_invoke none = invocation "Invoke was "

module _ {V S : Type 0} where
  check_type : Option OperationType → OperationIdentifier → Handler S V → Handler S V
  unfolding type_mismatch
  check_type none id rest = rest
  check_type (some found) id rest =
      if not (type_eq found OperationType.invoke)
      then fail (type_mismatch OperationType.invoke found id.operation_id)
      else rest

module _ {P V S : Type 0} (payload_serdes : JsonSerDes P) (serdes : JsonSerDes V)
    (client : Client S) (send : Sender S) (function_name : String) (payload : P)
    (id : OperationIdentifier) (config : InvokeConfig) where
  -- The START checkpoint, after which the service invokes the function.
  pub start_invoke : Handler S V
  unfolding create_invoke_start_update
  start_invoke = do
    text ← lift (or_ser_des "Failed to serialize invoke payload" (payload_serdes.serialize payload))
    checkpoint client send (create_invoke_start_update id function_name text config)
    fail (DurableError.suspend none)

  with_result : Option String → Handler S V → Handler S V
  with_result (some text) rest = do
    v ← lift (or_ser_des "Failed to deserialize invoke result" (serdes.deserialize text))
    track id.operation_id
    pure v
  with_result none rest = rest

  without_result : CheckpointedResult → Handler S V
  unfolding failed_invoke ended_invoke start_invoke invocation CheckpointedResult.is_failed
      CheckpointedResult.error CheckpointedResult.is_stopped CheckpointedResult.is_terminal
      CheckpointedResult.status
  without_result c =
      if CheckpointedResult.is_failed c
      then (track id.operation_id >> fail (failed_invoke (CheckpointedResult.error c)))
      else if CheckpointedResult.is_stopped c
      then (track id.operation_id >> fail (invocation "Invoke was stopped externally"))
      else if CheckpointedResult.is_terminal c
      then (track id.operation_id >> fail (ended_invoke (CheckpointedResult.status c)))
      else start_invoke

  by_status : CheckpointedResult → Handler S V
  unfolding with_result without_result CheckpointedResult.is_succeeded CheckpointedResult.result
  by_status c =
      if CheckpointedResult.is_succeeded c
      then with_result (CheckpointedResult.result c) (without_result c)
      else without_result c

  resume : CheckpointedResult → Handler S V
  unfolding check_type by_status start_invoke CheckpointedResult.is_existent
      CheckpointedResult.operation_type
  resume c =
      if CheckpointedResult.is_existent c
      then check_type (CheckpointedResult.operation_type c) id (by_status c)
      else start_invoke

  unfoldable pub invoke_handler : Handler S V
  unfolding resume
  invoke_handler = stored id.operation_id >>= resume
