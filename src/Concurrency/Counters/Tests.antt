-- ===== src/Concurrency/Counters/Tests.antt =====
-- Counters of a batch of three tasks; a percentage is a whole number.
use durable_execution_rust_s.Prelude.{
  ℕ, ◌*◌, ltb, ◌≡◌, ◌⊎◌, Bool, true, none, some, is_some, arith, refl,
}
use durable_execution_rust_s.Concurrency.Counters.{
  CompletionConfig, CompletionReason, ExecutionCounters, should_complete,
}
use durable_execution_rust_s.Concurrency.Counters.Laws.{MoreExceeds, is_decided, completion_stays}

abbrev pub over_percent : ℕ → ℕ → ℕ → Bool
over_percent failures total percent = ltb (percent * total) (100 * failures)

pub over_percent-MoreExceeds : MoreExceeds over_percent
over_percent-MoreExceeds fewer more total p le h = ground arith

abbrev one_failed : ExecutionCounters
one_failed = record {
  total_tasks = 3;
  success_count = 1;
  failure_count = 1;
  completed_count = 2;
  suspended_count = 0;
}

abbrev two_failed : ExecutionCounters
two_failed = record one_failed { failure_count = 2; completed_count = 3 }

abbrev pub fail_once : CompletionConfig ℕ
fail_once = record {
  min_successful = none;
  tolerated_failure_count = some 0;
  tolerated_failure_percentage = none;
}

completion_stays_example :
    (is_some (should_complete over_percent one_failed fail_once) ≡ true
      → is_some (should_complete over_percent two_failed fail_once) ≡ true)
    × (is_decided over_percent one_failed fail_once ≡ true
        → (should_complete over_percent two_failed fail_once
            ≡ some CompletionReason.min_successful_reached)
          ⊎ (should_complete over_percent two_failed fail_once
              ≡ some CompletionReason.failure_tolerance_exceeded))
completion_stays_example =
    completion_stays over_percent over_percent-MoreExceeds one_failed two_failed fail_once (record {
      same_total = refl;
      more_success = omega arith;
      more_failure = omega arith;
      more_done = omega arith;
    })
