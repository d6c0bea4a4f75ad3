-- ===== src/Concurrency/Executor/Tests.antt =====
-- Runs of a batch of two tasks with the concurrency limit 1: the first task succeeds, the second
-- still waits for the permit.
use durable_execution_rust_s.Prelude.{
  ◌++◌, zero, suc, ℕ, ◌+◌, ◌≤◌, ◌<◌, ◌≡◌, ◌⊎◌, refl, false, none, some, List, [], ◌∷◌, length, map,
  arith,
}
use durable_execution_rust_s.Prelude.Tally.{tally}
use durable_execution_rust_s.Errors.{Result, ok}
use durable_execution_rust_s.Concurrency.Counters.{CompletionReason, should_complete}
use durable_execution_rust_s.Concurrency.Batch.{
  succeeded_item, pending_item, success_count, failure_count, total_count, succeeded_items,
  get_results,
}
use durable_execution_rust_s.Concurrency.Executor.{Phase, Exec, start, step, collect}
use durable_execution_rust_s.Concurrency.Executor.Invariant.{
  active, pending_status, cancelled_status,
}
use durable_execution_rust_s.Concurrency.Executor.Progress.{AllFinished, Reach, here, next}
use durable_execution_rust_s.Concurrency.Executor.Runs.{
  concurrency_limited, no_deadlock, zero_limit_stuck,
}
use durable_execution_rust_s.Concurrency.Executor.Outcome.{
  items_with, result_matches_counters, reason_is_decided,
}
use durable_execution_rust_s.Concurrency.Executor.Rounds.{Fair, run_rounds, rounds_finish}
use durable_execution_rust_s.Concurrency.Executor.Values.{get_results_complete}
use durable_execution_rust_s.Concurrency.Counters.Tests.{
  over_percent, over_percent-MoreExceeds, fail_once,
}

abbrev one_admitted : Exec ℕ
one_admitted = record {
  counters = record {
    total_tasks = 2;
    success_count = 0;
    failure_count = 0;
    completed_count = 0;
    suspended_count = 0;
  };
  tasks =
      record { phase = Phase.admitted; item = pending_item 0 }
      ∷ record { phase = Phase.queued; item = pending_item 1 }
      ∷ [];
  permits = some 0;
  locked = false;
}

admitting : Reach over_percent fail_once (start 2 (some 1)) 1 one_admitted
unfolding start step
admitting = next 0 (ok 7) here refl

concurrency_limited_example : tally active one_admitted.tasks ≤ 1
concurrency_limited_example =
    concurrency_limited over_percent over_percent-MoreExceeds fail_once (some 1) 2 (omega arith) 1
      admitting refl

no_deadlock_example :
    (i : ℕ) × ((r : Result ℕ)
      → (e' : Exec ℕ) × (step over_percent fail_once one_admitted i r ≡ some e'))
no_deadlock_example =
    no_deadlock over_percent over_percent-MoreExceeds fail_once (some 1) 2 (omega arith) admitting
      (λ e. cc) (omega arith)

both_picked : Fair 2 (0 ∷ 1 ∷ [])
both_picked zero h = refl
both_picked (suc zero) h = refl
both_picked (suc (suc i)) h = absurd (omega arith)

abbrev five_rounds : List (List ℕ)
five_rounds = (0 ∷ 1 ∷ []) ∷ (0 ∷ 1 ∷ []) ∷ (0 ∷ 1 ∷ []) ∷ (0 ∷ 1 ∷ []) ∷ (0 ∷ 1 ∷ []) ∷ []

-- Ten rounds, from the start of two tasks.
rounds_finish_example :
    AllFinished {T = ℕ} (
      run_rounds over_percent fail_once (λ i. ok 7) (five_rounds ++ five_rounds) (start 2 (some 1)))
rounds_finish_example =
    rounds_finish over_percent fail_once (λ i. ok 7) over_percent-MoreExceeds (some 1) 2
      (omega arith) (five_rounds ++ five_rounds) here (λ e. cc)
      (
        both_picked,
        (
          both_picked,
          (
            both_picked,
            (
              both_picked,
              (
                both_picked,
                (both_picked, (both_picked, (both_picked, (both_picked, (both_picked, tt))))),
              ),
            ),
          ),
        ),
      )
      (omega arith)

zero_limit_stuck_example : step over_percent fail_once (start {T = ℕ} 2 (some 0)) 1 (ok 7) ≡ none
zero_limit_stuck_example = zero_limit_stuck over_percent fail_once 2 1 (ok 7)

abbrev one_done : Exec ℕ
one_done = record {
  counters = record {
    total_tasks = 1;
    success_count = 1;
    failure_count = 0;
    completed_count = 1;
    suspended_count = 0;
  };
  tasks = record { phase = Phase.finished; item = succeeded_item 0 7 } ∷ [];
  permits = some 1;
  locked = false;
}

whole_run : Reach over_percent fail_once (start 1 (some 1)) 5 one_done
unfolding start step should_complete
whole_run =
    next 0 (ok 7)
      (next 0 (ok 7) (next 0 (ok 7) (next 0 (ok 7) (next 0 (ok 7) here refl) refl) refl) refl) refl

result_matches_counters_example :
    (items_with pending_status (collect over_percent fail_once one_done).items ≡ 0)
    × (success_count (collect over_percent fail_once one_done) ≡ one_done.counters.success_count)
    × (failure_count (collect over_percent fail_once one_done) ≡ one_done.counters.failure_count)
    × (one_done.counters.completed_count
          + one_done.counters.suspended_count
          + items_with cancelled_status (collect over_percent fail_once one_done).items
        ≡ total_count (collect over_percent fail_once one_done))
    × (total_count (collect over_percent fail_once one_done) ≡ 1)
result_matches_counters_example =
    result_matches_counters over_percent over_percent-MoreExceeds fail_once (some 1) 1 (omega arith)
      one_done whole_run (refl, tt)

get_results_complete_example :
    (vs : List ℕ) × (get_results (collect over_percent fail_once one_done) ≡ ok vs)
    × (map (λ item. item.result) (succeeded_items (collect over_percent fail_once one_done))
        ≡ map some vs)
    × (length vs ≡ one_done.counters.success_count)
unfolding collect should_complete
get_results_complete_example =
    get_results_complete over_percent over_percent-MoreExceeds fail_once (some 1) 1 (omega arith)
      one_done whole_run (refl, tt) (λ e. cc)

reason_is_decided_example :
    (should_complete over_percent one_done.counters fail_once
      ≡ some (collect over_percent fail_once one_done).completion_reason)
    × (0 < items_with cancelled_status (collect over_percent fail_once one_done).items
        → ((collect over_percent fail_once one_done).completion_reason
            ≡ CompletionReason.min_successful_reached)
          ⊎ ((collect over_percent fail_once one_done).completion_reason
              ≡ CompletionReason.failure_tolerance_exceeded))
reason_is_decided_example =
    reason_is_decided over_percent over_percent-MoreExceeds fail_once (some 1) 1 (omega arith)
      one_done whole_run (refl, tt) (omega arith)
