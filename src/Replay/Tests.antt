-- ===== src/Replay/Tests.antt =====
-- The replay check at concrete operations.
use durable_execution_rust_s.Prelude.{
  ℕ, ◌≡◌, ◌≢◌, ◌↔◌, ◌⊎◌, refl, inl, inr, String, ◌<>◌, str_eq, true, false, if◌then◌else◌, none,
  some,
}
use durable_execution_rust_s.Errors.{DurableError, TerminationReason, ok, err, is_ok}
use durable_execution_rust_s.Operation.Kinds.{
  OperationType, OperationStatus, type_eq, is_resumable, show_status,
}
use durable_execution_rust_s.Operation.Record.{Operation, new_operation, get_result}
use durable_execution_rust_s.CheckpointedResult
use durable_execution_rust_s.Replay.{
  check_replay, check_replay_status, replayed, in_progress, not_found,
}
use durable_execution_rust_s.Replay.Laws.{
  StoresValue, stored, check_replay_outcomes, unsuccessful_agree, succeeded_without_result,
}

abbrev read : String → ℕ ⊎ String
read text = if str_eq text "seven" then inl 7 else inr "not a number"

abbrev seven : Operation
seven = record (new_operation "op-1" OperationType.step) {
  status = OperationStatus.succeeded;
  result = some "seven";
}

abbrev failed_step : Operation
failed_step = record (new_operation "op-2" OperationType.step) { status = OperationStatus.failed }

abbrev finished_wait : Operation
finished_wait = record (new_operation "op-3" OperationType.wait) {
  status = OperationStatus.succeeded;
}

replays_seven : check_replay read (stored seven) OperationType.step "op-1" ≡ ok (replayed 7)
unfolding check_replay new_operation type_eq get_result
replays_seven = refl

check_replay_outcomes_example :
    ((v : ℕ)
      → (check_replay read (stored seven) OperationType.step "op-1" ≡ ok (replayed v)) ↔ (
          (op : Operation) × ((stored seven).operation ≡ some op)
          × (op.operation_type ≡ OperationType.step)
          × StoresValue read op v))
    × ((check_replay read (stored seven) OperationType.step "op-1" ≡ ok in_progress) ↔ (
        (op : Operation) × ((stored seven).operation ≡ some op)
        × (op.operation_type ≡ OperationType.step)
        × (is_resumable op.status ≡ true)))
    × ((check_replay read (stored seven) OperationType.step "op-1" ≡ ok not_found)
        ↔ ((stored seven).operation ≡ none))
check_replay_outcomes_example = check_replay_outcomes read (stored seven) OperationType.step "op-1"

unsuccessful_agree_example :
    ((e : DurableError)
      → (check_replay read (stored failed_step) OperationType.step "op-2" ≡ err e)
        ↔ (check_replay_status (stored failed_step) OperationType.step "op-2" ≡ err e))
    × (is_ok (check_replay read (stored failed_step) OperationType.step "op-2")
        ≡ is_ok (check_replay_status (stored failed_step) OperationType.step "op-2"))
    × (check_replay_status (stored failed_step) OperationType.step "op-2" ≢ ok true)
    × ((check_replay_status (stored failed_step) OperationType.step "op-2" ≡ ok false) ↔ (
        (op : Operation)
        → (stored failed_step).operation ≡ some op
        → (op.operation_type ≡ OperationType.step) × (is_resumable op.status ≡ true)))
unfolding CheckpointedResult.is_succeeded
unsuccessful_agree_example =
    unsuccessful_agree read (stored failed_step) OperationType.step "op-2" refl

succeeded_without_result_example :
    (check_replay read (stored finished_wait) OperationType.wait "op-3"
      ≡ err (
          DurableError.execution
            ("Operation was " <> show_status OperationStatus.succeeded)
            TerminationReason.step_interrupted))
    × (check_replay_status (stored finished_wait) OperationType.wait "op-3" ≡ ok true)
unfolding new_operation get_result
succeeded_without_result_example =
    succeeded_without_result read finished_wait OperationType.wait "op-3" refl refl refl
