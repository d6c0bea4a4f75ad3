-- ===== src/Handlers/Callback/Tests.antt =====
-- A callback that has been answered, and one that is created.
use durable_execution_rust_s.Prelude.{ℕ, suc, refl, String, ◌≡◌, ◌↔◌, ◌⊎◌, inl, none, some, [], ◌∷◌}
use durable_execution_rust_s.Prelude.Dict.{lookup, member}
use durable_execution_rust_s.Errors.{DurableError, ok, err}
use durable_execution_rust_s.Operation.Kinds.{OperationType, OperationStatus}
use durable_execution_rust_s.Operation.Update
use durable_execution_rust_s.Operation.Record.{Operation, new_operation}
use durable_execution_rust_s.State.Model.{
  ExecutionState, CheckpointingMode, with_checkpointing_mode,
}
use durable_execution_rust_s.State.Tracking.{track_replay}
use durable_execution_rust_s.Serdes.{JsonSerDes}
use durable_execution_rust_s.Client.{Client, CheckpointResponse, NewExecutionState}
use durable_execution_rust_s.State.Checkpoint.{Run, create_checkpoint_with_response}
use durable_execution_rust_s.Handlers.{OperationIdentifier}
use durable_execution_rust_s.Handlers.Callback.Replays.{callback_replayed}
use durable_execution_rust_s.Handlers.Callback.{
  Callback, CallbackConfig, callback_result, callback_handler, create_callback_start_update,
}
use durable_execution_rust_s.Handlers.Callback.Laws.{Called, callback_result_outcomes}

-- Texts, written as they are.
abbrev plain : JsonSerDes String
plain = record { serialize = λ v. inl v; deserialize = λ text. inl text }

abbrev approval : Callback
approval = record { callback_id = "cb-1"; operation_id = "approval" }

abbrev approved : ExecutionState
approved =
    with_checkpointing_mode "arn" "token"
      (record {
        operations =
            record (new_operation "approval" OperationType.callback) {
              status = OperationStatus.succeeded;
              result = some "yes";
            }
            ∷ [];
        next_marker = none;
      })
      CheckpointingMode.eager

callback_result_outcomes_example :
    let run = callback_result {S = ℕ} plain approval approved 0 in
    let o = lookup "approval" approved.operations in
    ((run.0 ≡ ok "yes") ↔ Called plain o "yes")
    × (run.0 ≡ ok "yes" → run ≡ (ok "yes", track_replay approved "approval", 0))
    × ((op : Operation)
        → o ≡ some op
        → (op.status ≡ OperationStatus.cancelled) ⊎ (op.status ≡ OperationStatus.stopped)
        → run ≡ (err (DurableError.suspend none), approved, 0))
callback_result_outcomes_example = callback_result_outcomes {S = ℕ} plain approval "yes" approved 0

abbrev waiting : Operation
waiting = record (new_operation "approval" OperationType.callback) {
  callback_details = some (record { callback_id = some "cb-9"; result = none; error = none });
}

abbrev sent : NewExecutionState
sent = record { operations = waiting ∷ []; next_marker = none }

abbrev answer : CheckpointResponse
answer = record { checkpoint_token = "next"; new_execution_state = some sent }

-- The world counts the calls.
abbrev service : Client ℕ
service = record {
  checkpoint = λ arn token updates calls. (ok answer, suc calls);
  get_operations = λ arn marker calls. (err (DurableError.validation "no history"), calls);
}

abbrev fresh_state : ExecutionState
fresh_state =
    with_checkpointing_mode "arn" "token" (record { operations = []; next_marker = none })
      CheckpointingMode.eager

abbrev approval_id : OperationIdentifier
approval_id = record { operation_id = "approval"; parent_id = none; name = some "an approval" }

abbrev one_hour : CallbackConfig
one_hour = record { timeout = 3600; heartbeat_timeout = 60 }

abbrev first_run : Run CheckpointResponse ℕ
first_run =
    create_checkpoint_with_response service (create_callback_start_update approval_id one_hour)
      fresh_state 0

callback_replayed_example :
    (callback_handler service approval_id one_hour fresh_state 0
      ≡ (ok (record { callback_id = "cb-9"; operation_id = "approval" }), first_run.1, 1))
    × ((config' : CallbackConfig) (later : ℕ)
        → callback_handler service approval_id config' first_run.1 later
          ≡ (ok (record { callback_id = "cb-9"; operation_id = "approval" }), first_run.1, later))
unfolding with_checkpointing_mode lookup create_checkpoint_with_response
    create_callback_start_update new_operation Update.start member
callback_replayed_example =
    callback_replayed service approval_id one_hour fresh_state first_run.1 0 1 answer sent waiting
      "cb-9" refl refl refl (refl, tt) refl refl refl
