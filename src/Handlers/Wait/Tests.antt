-- ===== src/Handlers/Wait/Tests.antt =====
-- A wait of ten seconds that is stored, and one that is cancelled.
use durable_execution_rust_s.Prelude.{ℕ, suc, ◌≡◌, ◌↔◌, refl, none, some, [], ◌∷◌, arith}
use durable_execution_rust_s.Prelude.Dict.{lookup, insert}
use durable_execution_rust_s.Errors.{DurableError, ok, err}
use durable_execution_rust_s.Operation.Kinds.{OperationType, is_terminal}
use durable_execution_rust_s.Operation.Record.{Operation, new_operation}
use durable_execution_rust_s.Client.{Client, Sender}
use durable_execution_rust_s.State.Model.{
  ExecutionState, CheckpointingMode, with_checkpointing_mode,
}
use durable_execution_rust_s.State.Tracking.{track_replay}
use durable_execution_rust_s.Handlers.{OperationIdentifier}
use durable_execution_rust_s.Handlers.Wait.{wait_handler, wait_cancel_handler}
use durable_execution_rust_s.Handlers.Wait.Laws.{IsOver, wait_handler_returns, cancel_ends_wait}

-- The world counts the calls.
abbrev service : Client ℕ
service = record {
  checkpoint = λ arn token updates calls.
      (ok (record { checkpoint_token = "next"; new_execution_state = none }), suc calls);
  get_operations = λ arn marker calls. (err (DurableError.validation "no history"), calls);
}

abbrev no_sender : Sender ℕ
no_sender = λ u is_sync token calls. (err (DurableError.validation "no sender"), token, calls)

abbrev pause : OperationIdentifier
pause = record { operation_id = "pause"; parent_id = none; name = some "a pause" }

abbrev stored : Operation
stored = new_operation "pause" OperationType.wait

abbrev waiting_state : ExecutionState
waiting_state =
    with_checkpointing_mode "arn" "token" (record { operations = stored ∷ []; next_marker = none })
      CheckpointingMode.eager

still_waiting :
    wait_handler service no_sender 10 pause waiting_state 0
    ≡ (err (DurableError.suspend none), waiting_state, 0)
unfolding wait_handler with_checkpointing_mode new_operation lookup insert is_terminal
still_waiting = refl

wait_handler_returns_example :
    ((wait_handler service no_sender 10 pause waiting_state 0).0 ≡ ok tt ↔ (
      (op : Operation) × (lookup pause.operation_id waiting_state.operations ≡ some op)
      × IsOver op))
    × ((wait_handler service no_sender 10 pause waiting_state 0).0 ≡ ok tt
        → wait_handler service no_sender 10 pause waiting_state 0
          ≡ (ok tt, track_replay waiting_state pause.operation_id, 0))
wait_handler_returns_example =
    wait_handler_returns service no_sender 10 pause waiting_state 0 (omega arith)

cancel_ends_wait_example :
    let after = wait_cancel_handler service no_sender "pause" waiting_state 0 in
    (after.0 ≡ ok tt) × ((wait_handler service no_sender 10 pause after.1 after.2).0 ≡ ok tt)
unfolding with_checkpointing_mode new_operation lookup insert is_terminal
cancel_ends_wait_example =
    cancel_ends_wait service no_sender 10 pause waiting_state 0 1 stored
      (record { checkpoint_token = "next"; new_execution_state = none }) (omega arith) refl refl
      refl refl refl refl
