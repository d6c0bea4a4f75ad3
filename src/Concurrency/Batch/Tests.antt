-- ===== src/Concurrency/Batch/Tests.antt =====
-- A batch result with a success, a cancelled item and a failure.
use durable_execution_rust_s.Prelude.{ℕ, ◌≡◌, refl, List, [], ◌∷◌}
use durable_execution_rust_s.Errors.{ErrorObject, ok, err, new_error_object, user_code_from}
use durable_execution_rust_s.Concurrency.Counters.{CompletionReason}
use durable_execution_rust_s.Concurrency.Batch.{
  BatchItem, BatchResult, succeeded_item, cancelled_item, failed_item, is_failure,
  is_tolerance_exceeded, get_results,
}

abbrev boom : ErrorObject
boom = new_error_object "Boom" "it broke"

abbrev before_failure : List (BatchItem ℕ)
before_failure = succeeded_item 0 10 ∷ cancelled_item 1 ∷ []

abbrev reached : BatchResult ℕ
reached = record {
  items = before_failure;
  completion_reason = CompletionReason.min_successful_reached;
}

results_reached : get_results reached ≡ ok (10 ∷ [])
unfolding get_results is_tolerance_exceeded
results_reached = refl

results_failed :
    get_results (record {
      items = failed_item 2 boom ∷ before_failure;
      completion_reason = CompletionReason.failure_tolerance_exceeded;
    })
    ≡ err (user_code_from boom)
unfolding get_results is_tolerance_exceeded is_failure
results_failed = refl
