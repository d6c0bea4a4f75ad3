-- ===== src/State/Cache/Tests.antt =====
-- Updates of an execution state that has one step.
use durable_execution_rust_s.Prelude.{
  ◌+◌, ◌%◌, ◌^◌, arith, String, ◌≡◌, ◌≢◌, refl, none, some, [], ◌∷◌,
}
use durable_execution_rust_s.Prelude.Dict.{lookup, insert}
use durable_execution_rust_s.Operation.Kinds.{OperationType}
use durable_execution_rust_s.Operation.Record.{
  Operation, new_operation, get_attempt, get_retry_payload,
}
use durable_execution_rust_s.Operation.Update.{OperationUpdate, retry}
use durable_execution_rust_s.State.Model.{
  ExecutionState, CheckpointingMode, with_checkpointing_mode,
}
use durable_execution_rust_s.State.Invariant.{IsValid, new_state-IsValid}
use durable_execution_rust_s.State.Cache.{update_local_cache_from_update}
use durable_execution_rust_s.State.Cache.Laws.{status_after, update_sets_status}
use durable_execution_rust_s.State.Cache.Retries.{
  update_all, last_payload, attempts, retries_counted,
}

abbrev the_step : Operation
the_step = new_operation "s" OperationType.step

abbrev one_step : ExecutionState
one_step =
    with_checkpointing_mode "arn" "token"
      (record { operations = the_step ∷ []; next_marker = none }) CheckpointingMode.batched

abbrev try_again : OperationUpdate
try_again = retry "s" OperationType.step (some "payload") (some 3)

one_step-IsValid : IsValid one_step
one_step-IsValid =
    (new_state-IsValid "arn" "token" (record { operations = the_step ∷ []; next_marker = none })
      CheckpointingMode.batched).0

update_sets_status_example :
    ((op : Operation) × (lookup try_again.operation_id
          (update_local_cache_from_update try_again one_step).operations
        ≡ some op)
      × (op.status ≡ status_after try_again.action))
    × ((j : String)
        → j ≢ try_again.operation_id
        → lookup j (update_local_cache_from_update try_again one_step).operations
          ≡ lookup j one_step.operations)
update_sets_status_example = update_sets_status try_again one_step

retries_counted_example :
    (op' : Operation) × (lookup "s" (update_all (try_again ∷ try_again ∷ []) one_step).operations
      ≡ some op')
    × (op'.operation_type ≡ OperationType.step)
    × (attempts op' ≡ (attempts the_step + 2) % 2 ^ 32)
    × (get_retry_payload op'
        ≡ last_payload (try_again ∷ try_again ∷ []) (get_retry_payload the_step))
unfolding retry with_checkpointing_mode new_operation lookup insert get_attempt
retries_counted_example =
    retries_counted (try_again ∷ try_again ∷ []) "s" one_step the_step
      ((refl, refl, refl), ((refl, refl, refl), tt)) refl refl (omega arith)
