-- ===== src/Concurrency/Batch.antt =====
-- `BatchItem`, `BatchItemStatus` and `BatchResult` of sdk/src/concurrency.rs.
pub mod Laws
mod Tests
use durable_execution_rust_s.Prelude.{
  ℕ, ltb, ◌==◌, if◌then◌else◌, Bool, true, false, Option, none, some, List, [], ◌∷◌, length, select,
  all, any, is_some,
}
use durable_execution_rust_s.Errors.{
  DurableError, ErrorObject, Result, ok, err, execution_failure, user_code_from,
}
use durable_execution_rust_s.Concurrency.Counters.{CompletionReason}

pub data BatchItemStatus : Type 0 where
  succeeded failed cancelled pending suspended : BatchItemStatus

pub record BatchItem (T : Type 0) : Type 0 where
  pub index : ℕ
  pub status : BatchItemStatus
  pub result : Option T
  pub error : Option ErrorObject

unfoldable pub is_success : BatchItemStatus → Bool
is_success BatchItemStatus.succeeded = true
is_success _ = false

unfoldable pub is_failure : BatchItemStatus → Bool
is_failure BatchItemStatus.failed = true
is_failure _ = false

-- `CompletionReason::FailureToleranceExceeded` by the derived `PartialEq`.
unfoldable pub is_tolerance_exceeded : CompletionReason → Bool
is_tolerance_exceeded CompletionReason.failure_tolerance_exceeded = true
is_tolerance_exceeded _ = false

module _ {T : Type 0} where
  abbrev pub succeeded_item : ℕ → T → BatchItem T
  succeeded_item i v = record {
    index = i;
    status = BatchItemStatus.succeeded;
    result = some v;
    error = none;
  }

  abbrev pub failed_item : ℕ → ErrorObject → BatchItem T
  failed_item i e = record {
    index = i;
    status = BatchItemStatus.failed;
    result = none;
    error = some e;
  }

  abbrev pub cancelled_item : ℕ → BatchItem T
  cancelled_item i = record {
    index = i;
    status = BatchItemStatus.cancelled;
    result = none;
    error = none;
  }

  abbrev pub pending_item : ℕ → BatchItem T
  pending_item i = record {
    index = i;
    status = BatchItemStatus.pending;
    result = none;
    error = none;
  }

  abbrev pub suspended_item : ℕ → BatchItem T
  suspended_item i = record {
    index = i;
    status = BatchItemStatus.suspended;
    result = none;
    error = none;
  }

  unfoldable pub is_succeeded : BatchItem T → Bool
  unfolding is_success
  is_succeeded item = is_success item.status

  unfoldable pub is_failed : BatchItem T → Bool
  unfolding is_failure
  is_failed item = is_failure item.status

pub record BatchResult (T : Type 0) : Type 0 where
  pub items : List (BatchItem T)
  pub completion_reason : CompletionReason

item_error : Option ErrorObject → DurableError
unfolding user_code_from execution_failure
item_error (some e) = user_code_from e
item_error none = execution_failure "Batch operation failed"

module _ {T : Type 0} where
  unfoldable pub empty : BatchResult T
  empty = record { items = []; completion_reason = CompletionReason.all_completed }

  unfoldable pub succeeded_items : BatchResult T → List (BatchItem T)
  unfolding is_succeeded
  succeeded_items b = select is_succeeded b.items

  unfoldable pub failed_items : BatchResult T → List (BatchItem T)
  unfolding is_failed
  failed_items b = select is_failed b.items

  -- `filter_map(|item| item.result.as_ref())`.
  collect_results : List (BatchItem T) → List T
  collect_results [] = []
  collect_results (item ∷ items) =
      let rest = collect_results items in elim item.result [ none ↦ rest | some v ↦ v ∷ rest ]

  -- The error of the first failed item.
  first_error : List (BatchItem T) → DurableError
  unfolding item_error execution_failure
  first_error [] = execution_failure "Batch operation failed"
  first_error (item ∷ items) = item_error item.error

  unfoldable pub get_results : BatchResult T → Result (List T)
  unfolding is_tolerance_exceeded first_error failed_items collect_results
  get_results b =
      if is_tolerance_exceeded b.completion_reason
      then err (first_error (failed_items b))
      else ok (collect_results b.items)

  unfoldable pub success_count : BatchResult T → ℕ
  unfolding succeeded_items
  success_count b = length (succeeded_items b)

  unfoldable pub failure_count : BatchResult T → ℕ
  unfolding failed_items
  failure_count b = length (failed_items b)

  unfoldable pub total_count : BatchResult T → ℕ
  total_count b = length b.items

  unfoldable pub all_succeeded : BatchResult T → Bool
  unfolding is_succeeded
  all_succeeded b = all is_succeeded b.items

  unfoldable pub has_failures : BatchResult T → Bool
  unfolding is_failed
  has_failures b = any is_failed b.items
