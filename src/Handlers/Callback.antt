-- ===== src/Handlers/Callback.antt =====
-- `callback_handler` and `Callback` of sdk/src/handlers/callback.rs. Logging and tracing are left out.
-- Of the configuration the source reads the two timeouts, which are numbers of seconds.
pub mod Laws
pub mod Replays
mod Tests
use durable_execution_rust_s.Prelude.{
  ℕ, String, ◌<>◌, str_eq, not, if◌then◌else◌, Option, none, some, and_then, unwrap_or, find,
}
use durable_execution_rust_s.Errors.{DurableError, ErrorObject, Result, ok, err}
use durable_execution_rust_s.Operation.Kinds.{OperationType, type_eq}
use durable_execution_rust_s.Operation.Update.{OperationUpdate}
use durable_execution_rust_s.Operation.Update
use durable_execution_rust_s.Client.{Client, CheckpointResponse, NewExecutionState}
use durable_execution_rust_s.Operation.Record.{Operation}
use durable_execution_rust_s.CheckpointedResult.{CheckpointedResult}
use durable_execution_rust_s.CheckpointedResult
use durable_execution_rust_s.Replay.{type_mismatch}
use durable_execution_rust_s.State.Checkpoint.{create_checkpoint_with_response}
use durable_execution_rust_s.Serdes.{JsonSerDes, or_ser_des}
use durable_execution_rust_s.Handlers.{OperationIdentifier, apply_to}
use durable_execution_rust_s.Handlers.Effects.{
  Handler, pure, fail, lift, stored, track, ◌>>=◌, ◌>>◌,
}

pub record CallbackConfig : Type 0 where
  pub timeout : ℕ
  pub heartbeat_timeout : ℕ

pub record Callback : Type 0 where
  pub callback_id : String
  pub operation_id : String

callback_error : String → Callback → DurableError
callback_error message c = DurableError.callback message (some c.callback_id)

failed_callback : Option ErrorObject → Callback → DurableError
unfolding callback_error
failed_callback (some e) c = callback_error e.error_message c
failed_callback none c = callback_error "Callback failed with unknown error" c

module _ {T S : Type 0} (serdes : JsonSerDes T) (callback : Callback) where
  -- A stored callback without a result.
  unanswered : CheckpointedResult → Handler S T
  unfolding callback_error failed_callback CheckpointedResult.is_failed CheckpointedResult.error
      CheckpointedResult.is_timed_out
  unanswered c =
      if CheckpointedResult.is_failed c
      then (track callback.operation_id
          >> fail (failed_callback (CheckpointedResult.error c) callback))
      else if CheckpointedResult.is_timed_out c
      then (track callback.operation_id >> fail (callback_error "Callback timed out" callback))
      else fail (DurableError.suspend none)

  with_result : Option String → Handler S T → Handler S T
  with_result (some text) rest = do
    v ← lift (or_ser_des "Failed to deserialize callback result" (serdes.deserialize text))
    track callback.operation_id
    pure v
  with_result none rest = rest

  read_callback : CheckpointedResult → Handler S T
  unfolding unanswered with_result callback_error CheckpointedResult.is_existent
      CheckpointedResult.is_succeeded CheckpointedResult.result
  read_callback c =
      if not (CheckpointedResult.is_existent c)
      then fail (callback_error "Callback not found" callback)
      else if CheckpointedResult.is_succeeded c
      then with_result (CheckpointedResult.result c) (unanswered c)
      else unanswered c

  -- `Callback::result`.
  unfoldable pub callback_result : Handler S T
  unfolding read_callback
  callback_result = stored callback.operation_id >>= read_callback

unfoldable pub create_callback_start_update : OperationIdentifier → CallbackConfig → OperationUpdate
unfolding apply_to
create_callback_start_update id config =
    apply_to id (record (Update.start id.operation_id OperationType.callback) {
      callback_options = some (record {
        timeout_seconds = some config.timeout;
        heartbeat_timeout_seconds = some config.heartbeat_timeout;
      });
    })

-- The id that the service made, in the new state of its response.
response_id : String → CheckpointResponse → Option String
response_id id response = and_then response.new_execution_state λ new.
    and_then (find (λ op. str_eq op.operation_id id) new.operations)
      λ op. and_then op.callback_details λ d. d.callback_id

module _ {S : Type 0} (client : Client S) (id : OperationIdentifier) (config : CallbackConfig) where
  created : Option String → Handler S Callback
  created (some callback_id) =
      pure (record { callback_id = callback_id; operation_id = id.operation_id })
  created none = fail (
      DurableError.callback
        ("Service did not return callback_id in checkpoint response for operation "
          <> id.operation_id)
        none)

  existing : CheckpointedResult → Handler S Callback
  unfolding CheckpointedResult.callback_id
  existing c = pure (record {
    callback_id = unwrap_or (CheckpointedResult.callback_id c) (unwrap_or id.name id.operation_id);
    operation_id = id.operation_id;
  })

  check_type : Option OperationType → Handler S Callback → Handler S Callback
  unfolding type_mismatch
  check_type none rest = rest
  check_type (some found) rest =
      if not (type_eq found OperationType.callback)
      then fail (type_mismatch OperationType.callback found id.operation_id)
      else rest

  create : Handler S Callback
  unfolding create_callback_start_update created response_id
  create = do
    response ← create_checkpoint_with_response client (create_callback_start_update id config)
    created (response_id id.operation_id response)

  resume : CheckpointedResult → Handler S Callback
  unfolding check_type existing create CheckpointedResult.is_existent
      CheckpointedResult.operation_type
  resume c =
      if CheckpointedResult.is_existent c
      then check_type (CheckpointedResult.operation_type c) (existing c)
      else create

  unfoldable pub callback_handler : Handler S Callback
  unfolding resume
  callback_handler = stored id.operation_id >>= resume
