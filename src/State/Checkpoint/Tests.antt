-- ===== src/State/Checkpoint/Tests.antt =====
-- Checkpoints of a step whose parent has completed, with a client that answers every call.
use durable_execution_rust_s.Prelude.{ℕ, suc, true, none, some, []}
use durable_execution_rust_s.Errors.{ok, err}
use durable_execution_rust_s.Operation.Kinds.{OperationType}
use durable_execution_rust_s.Operation.Update.{OperationUpdate, start}
use durable_execution_rust_s.Client.{Client, Sender}
use durable_execution_rust_s.State.Model.{
  ExecutionState, CheckpointingMode, with_checkpointing_mode, mark_parent_done,
}
use durable_execution_rust_s.State.Checkpoint.{
  create_checkpoint, create_checkpoint_with_response, orphan_error,
}
use durable_execution_rust_s.State.Checkpoint.Laws.{Keeps, create_checkpoint-Keeps}

-- The world counts the calls.
abbrev answering : Client ℕ
answering = record {
  checkpoint = λ arn token updates calls.
      (ok (record { checkpoint_token = "next"; new_execution_state = none }), suc calls);
  get_operations =
      λ arn marker calls. (ok (record { operations = []; next_marker = none }), suc calls);
}

abbrev sending : Sender ℕ
sending = λ u is_sync token calls. (ok tt, "sent", suc calls)

abbrev refusing : Sender ℕ
refusing = λ u is_sync token calls. (err (orphan_error u "x"), token, calls)

abbrev eager_state : ExecutionState
eager_state =
    mark_parent_done
      (with_checkpointing_mode "arn" "token" (record { operations = []; next_marker = none })
        CheckpointingMode.eager)
      "parent"

abbrev child : OperationUpdate
child = record (start "child" OperationType.step) { parent_id = some "parent" }

create_checkpoint-Keeps_example :
    Keeps answering eager_state
      (create_checkpoint answering sending (start "s" OperationType.step) true eager_state 0)
    × Keeps answering eager_state
        (create_checkpoint_with_response answering (start "s" OperationType.step) eager_state 0)
create_checkpoint-Keeps_example =
    create_checkpoint-Keeps answering sending (start "s" OperationType.step) true eager_state 0
