-- ===== src/Handlers/Invoke/Tests.antt =====
-- An invocation that has succeeded, and one that is running.
use durable_execution_rust_s.Prelude.{
  ℕ, suc, String, ◌≡◌, ◌↔◌, inl, inr, refl, ap, none, some, [], ◌∷◌,
}
use durable_execution_rust_s.Prelude.Dict.{lookup, insert}
use durable_execution_rust_s.Errors.{DurableError, ok, err}
use durable_execution_rust_s.Operation.Kinds.{OperationType, OperationStatus, is_terminal}
use durable_execution_rust_s.Operation.Record.{Operation, new_operation}
use durable_execution_rust_s.Client.{Client, Sender}
use durable_execution_rust_s.State.Model.{
  ExecutionState, CheckpointingMode, with_checkpointing_mode,
}
use durable_execution_rust_s.Operation.Update
use durable_execution_rust_s.State.Checkpoint.{create_checkpoint}
use durable_execution_rust_s.State.Tracking.{track_replay}
use durable_execution_rust_s.Serdes.{JsonSerDes}
use durable_execution_rust_s.Handlers.{OperationIdentifier}
use durable_execution_rust_s.Handlers.Invoke.{InvokeConfig, start_invoke, invoke_handler}
use durable_execution_rust_s.Handlers.Invoke.Laws.{
  Answered, invoke_handler_returns, unsettled_invoke_starts,
}

-- The world counts the calls of the service.
abbrev service : Client ℕ
service = record {
  checkpoint = λ arn token updates calls.
      (ok (record { checkpoint_token = "next"; new_execution_state = none }), suc calls);
  get_operations = λ arn marker calls. (err (DurableError.validation "no history"), calls);
}

abbrev no_sender : Sender ℕ
no_sender = λ u is_sync token calls. (err (DurableError.validation "no sender"), token, calls)

-- Texts, written as they are.
abbrev plain : JsonSerDes String
plain = record { serialize = λ v. inl v; deserialize = λ text. inl text }

abbrev quote : OperationIdentifier
quote = record { operation_id = "quote"; parent_id = none; name = none }

abbrev config : InvokeConfig
config = record { tenant_id = none }

abbrev asked : Operation
asked = new_operation "quote" OperationType.invoke

abbrev answered : Operation
answered = record asked { status = OperationStatus.succeeded; result = some "42" }

abbrev state_of : Operation → ExecutionState
state_of op =
    with_checkpointing_mode "arn" "token" (record { operations = op ∷ []; next_marker = none })
      CheckpointingMode.eager

invoke_handler_returns_example :
    let run =
      invoke_handler plain plain service no_sender "price" "tea" quote config
        (state_of answered)
        0 in
    ((run.0 ≡ ok "42")
      ↔ Answered plain plain service no_sender "price" "tea" quote config
          (lookup "quote" (state_of answered).operations)
          "42")
    × (run.0 ≡ ok "42" → run ≡ (ok "42", track_replay (state_of answered) "quote", 0))
invoke_handler_returns_example =
    invoke_handler_returns plain plain service no_sender "price" "tea" quote config "42"
      (state_of answered) 0

-- An invocation that is running is checkpointed once more.
asked_suspends :
    (invoke_handler plain plain service no_sender "price" "tea" quote config (state_of asked) 0).2
    ≡ 1
unfolding with_checkpointing_mode new_operation lookup insert is_terminal start_invoke
    create_checkpoint Update.start
asked_suspends =
    ap (λ r. r.2)
      (unsettled_invoke_starts plain plain service no_sender "price" "tea" quote config
        (state_of asked) 0 (some asked) refl (inr (asked, refl, refl, refl)))
