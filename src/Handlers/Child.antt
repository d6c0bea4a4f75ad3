-- ===== src/Handlers/Child.antt =====
-- `child_handler` of sdk/src/handlers/child.rs. Logging is left out. The user's function gets the child
-- context; it may run operations of its own, so it is a parameter that changes the execution state
-- and the world outside.
pub mod Entries
pub mod Executed
pub mod Laws
pub mod Replays
mod Tests
use durable_execution_rust_s.Prelude.{
  ℕ, String, ◌<>◌, byte_len, ltb, Bool, true, false, not, ◌&&◌, if◌then◌else◌, Option, none, some,
  unwrap_or, and_then,
}
use durable_execution_rust_s.Prelude.Dict.{lookup}
use durable_execution_rust_s.Errors.{
  DurableError, ErrorObject, Result, ok, err, execution_failure, user_code_from, error_object_from,
  is_suspend,
}
use durable_execution_rust_s.Operation.Kinds.{OperationType, OperationStatus, type_eq, show_status}
use durable_execution_rust_s.Operation.Record.{Operation}
use durable_execution_rust_s.Operation.Update.{OperationUpdate, with_context_options}
use durable_execution_rust_s.Operation.Update
use durable_execution_rust_s.Client.{Client, Sender}
use durable_execution_rust_s.CheckpointedResult.{CheckpointedResult}
use durable_execution_rust_s.CheckpointedResult
use durable_execution_rust_s.Context.{DurableContext, create_child_context}
use durable_execution_rust_s.Replay.{type_mismatch}
use durable_execution_rust_s.State.Model.{has_replay_children}
use durable_execution_rust_s.Serdes.{JsonSerDes, or_ser_des}
use durable_execution_rust_s.Handlers.{OperationIdentifier, apply_to}
use durable_execution_rust_s.Handlers.Effects.{
  Handler, pure, fail, lift, attempt, stored, track, mark_parent_done, checkpoint, ◌>>=◌, ◌>>◌,
}

-- The serializer of the configuration is not read by the handler.
pub record ChildConfig : Type 0 where
  pub replay_children : Bool
  pub error_mapper : Option (DurableError → DurableError)
  pub summary_generator : Option (String → String)

abbrev pub summary_threshold : ℕ
summary_threshold = 262144

-- `update.with_context_options(Some(true))`, where the children are to be replayed.
with_children : Bool → OperationUpdate → OperationUpdate
unfolding with_context_options
with_children replay_children u = if replay_children then with_context_options u (some true) else u

unfoldable pub create_start_update : OperationIdentifier → ChildConfig → OperationUpdate
unfolding with_children apply_to
create_start_update id config =
    with_children config.replay_children
      (apply_to id (Update.start id.operation_id OperationType.context))

unfoldable pub create_succeed_update : OperationIdentifier → Option String → OperationUpdate
unfolding apply_to
create_succeed_update id result =
    apply_to id (Update.succeed id.operation_id OperationType.context result)

unfoldable pub create_fail_update : OperationIdentifier → ErrorObject → OperationUpdate
unfolding apply_to
create_fail_update id error = apply_to id (Update.fail id.operation_id OperationType.context error)

failed_child : Option ErrorObject → DurableError
unfolding user_code_from execution_failure
failed_child (some e) = user_code_from e
failed_child none = execution_failure "Child context failed with unknown error"

-- The status is there, as `unwrap` wants.
ended_child : Option OperationStatus → DurableError
unfolding execution_failure
ended_child (some status) = execution_failure ("Child context was " <> show_status status)
ended_child none = execution_failure "Child context was "

-- The text to store: a summary of one that is too large.
pub summarized : Option (String → String) → String → String
summarized (some generator) text =
    if ltb summary_threshold (byte_len text) then generator text else text
summarized none text = text

pub mapped : Option (DurableError → DurableError) → DurableError → DurableError
mapped (some mapper) e = mapper e
mapped none e = e

module _ {T S : Type 0} where
  check_type : Option OperationType → OperationIdentifier → Handler S T → Handler S T
  unfolding type_mismatch
  check_type none id rest = rest
  check_type (some found) id rest =
      if not (type_eq found OperationType.context)
      then fail (type_mismatch OperationType.context found id.operation_id)
      else rest

module _ {T S : Type 0} (serdes : JsonSerDes T) (client : Client S) (send : Sender S) where
  -- The checkpoint of the result.
  pub checkpoint_result : OperationIdentifier → ChildConfig → Result T → Handler S T
  unfolding summarized mapped create_succeed_update create_fail_update error_object_from is_suspend
  checkpoint_result id config (ok v) = do
    text ← lift (or_ser_des "Failed to serialize child context result" (serdes.serialize v))
    checkpoint client send
        (create_succeed_update id (some (summarized config.summary_generator text)))
    mark_parent_done id.operation_id
    pure v
  checkpoint_result id config (err e) =
      let error = mapped config.error_mapper e in
      if is_suspend e
      then fail e
      else (checkpoint client send (create_fail_update id (error_object_from error))
          >> (mark_parent_done id.operation_id >> fail error))

  module _ (func : DurableContext → Handler S T) (id : OperationIdentifier)
      (config : ChildConfig) where
    unfoldable pub execute_child : Handler S T
    unfolding create_child_context checkpoint_result
    execute_child =
        attempt (func (create_child_context id.operation_id)) >>= checkpoint_result id config

    -- The function once more, to replay the operations of the child.
    replay_child : Handler S T
    unfolding create_child_context
    replay_child = do
      result ← attempt (func (create_child_context id.operation_id))
      track id.operation_id
      lift result

    -- The branches of a stored child context that has not succeeded, or has no result.
    without_result : CheckpointedResult → Handler S T
    unfolding failed_child ended_child execute_child CheckpointedResult.is_failed
        CheckpointedResult.error CheckpointedResult.is_terminal CheckpointedResult.status
    without_result c =
        if CheckpointedResult.is_failed c
        then (track id.operation_id >> fail (failed_child (CheckpointedResult.error c)))
        else if CheckpointedResult.is_terminal c
        then (track id.operation_id >> fail (ended_child (CheckpointedResult.status c)))
        else execute_child

    with_result : Option String → Handler S T → Handler S T
    with_result (some text) rest = do
      v ← lift (or_ser_des "Failed to deserialize child context result" (serdes.deserialize text))
      track id.operation_id
      pure v
    with_result none rest = rest

    by_status : CheckpointedResult → Handler S T
    unfolding replay_child with_result without_result has_replay_children
        CheckpointedResult.is_succeeded CheckpointedResult.result
    by_status c s w =
        if CheckpointedResult.is_succeeded c
        then if config.replay_children && has_replay_children s id.operation_id
          then replay_child s w
          else with_result (CheckpointedResult.result c) (without_result c) s w
        else without_result c s w

    -- What follows the look into the checkpoint.
    resume : CheckpointedResult → Handler S T
    unfolding check_type by_status execute_child create_start_update CheckpointedResult.is_existent
        CheckpointedResult.operation_type
    resume c =
        if CheckpointedResult.is_existent c
        then check_type (CheckpointedResult.operation_type c) id (by_status c)
        else (checkpoint client send (create_start_update id config) >> execute_child)

    unfoldable pub child_handler : Handler S T
    unfolding resume
    child_handler = stored id.operation_id >>= resume
