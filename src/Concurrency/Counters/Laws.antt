-- ===== src/Concurrency/Counters/Laws.antt =====
-- The completion criteria of `ExecutionCounters` (sdk/src/concurrency.rs) while the counters grow.
use durable_execution_rust_s.Prelude.{
  ℕ, suc, ◌+◌, ◌≤◌, ◌<◌, ◌≡◌, ◌↔◌, ◌⊎◌, ◌||◌, Bool, true, false, Option, none, some, arith, is_some,
}
use durable_execution_rust_s.Concurrency.Counters.{
  CompletionConfig, ExecutionCounters, CompletionReason, usize_mod, complete_task, fail_task,
  suspend_task, pending_count, has_pending, min_reached, over_count, over_percentage,
  is_failure_tolerance_exceeded, should_complete,
}

-- The counters of one run, none of them near the end of a word.
pub record IsConsistent (c : ExecutionCounters) : Type 0 where
  pub parts : c.success_count + c.failure_count ≤ c.completed_count
  pub within : c.completed_count + c.suspended_count ≤ c.total_tasks
  pub small : c.total_tasks < usize_mod

-- Counters that have only grown.
pub record Grows (c d : ExecutionCounters) : Type 0 where
  pub same_total : d.total_tasks ≡ c.total_tasks
  pub more_success : c.success_count ≤ d.success_count
  pub more_failure : c.failure_count ≤ d.failure_count
  pub more_done : c.completed_count + c.suspended_count ≤ d.completed_count + d.suspended_count

-- Division by the same total and rounding are monotone, so more failures exceed what fewer did.
abbrev pub MoreExceeds : {F : Type 0} → (ℕ → ℕ → F → Bool) → Type 0
MoreExceeds {F} exceeds =
    (fewer more total : ℕ) (p : F)
    → fewer ≤ more
    → exceeds fewer total p ≡ true
    → exceeds more total p ≡ true

module _ {F : Type 0} (exceeds : ℕ → ℕ → F → Bool) where
  -- A minimum of successes or the failure tolerance has decided the batch.
  abbrev pub is_decided : ExecutionCounters → CompletionConfig F → Bool
  is_decided c config =
      min_reached c config.min_successful || is_failure_tolerance_exceeded exceeds c config

  -- The batch goes on exactly while neither the minimum of successes nor the failure tolerance has
  -- decided it and some task is pending.
  pub should_complete-none_iff :
      (c : ExecutionCounters) (config : CompletionConfig F)
      → (should_complete exceeds c config ≡ none)
        ↔ ((is_decided c config ≡ false) × (has_pending c ≡ true))
  unfolding should_complete has_pending
  should_complete-none_iff c config = (λ h. (ground arith, ground arith), λ h. ground arith)

  module _ (more : MoreExceeds exceeds) where
    min_stays :
        (c d : ExecutionCounters) (o : Option ℕ)
        → Grows c d
        → min_reached c o ≡ true
        → min_reached d o ≡ true
    unfolding min_reached
    min_stays c d none g h = h
    min_stays c d (some m) g h = ground arith

    count_stays :
        (c d : ExecutionCounters) (o : Option ℕ)
        → Grows c d
        → over_count c o ≡ true
        → over_count d o ≡ true
    unfolding over_count
    count_stays c d none g h = h
    count_stays c d (some m) g h = ground arith

    percentage_stays :
        (c d : ExecutionCounters) (o : Option F)
        → Grows c d
        → over_percentage exceeds c o ≡ true
        → over_percentage exceeds d o ≡ true
    unfolding over_percentage
    percentage_stays c d none g h = h
    percentage_stays c d (some p) g h =
        ground (arith, more c.failure_count d.failure_count c.total_tasks p g.more_failure)

    pub decided_stays :
        (c d : ExecutionCounters) (config : CompletionConfig F)
        → Grows c d
        → is_decided c config ≡ true
        → is_decided d config ≡ true
    unfolding is_failure_tolerance_exceeded
    decided_stays c d config g h = ground (
      arith,
      min_stays c d config.min_successful g,
      count_stays c d config.tolerated_failure_count g,
      percentage_stays c d config.tolerated_failure_percentage g,
    )

    -- With a percentage test that more failures never undo, a batch that is to complete stays so
    -- while its counters grow, and one that the minimum of successes or the failure tolerance has
    -- decided stays decided by one of these two.
    pub completion_stays :
        (c d : ExecutionCounters) (config : CompletionConfig F)
        → Grows c d
        → (is_some (should_complete exceeds c config) ≡ true
            → is_some (should_complete exceeds d config) ≡ true)
          × (is_decided c config ≡ true
              → (should_complete exceeds d config ≡ some CompletionReason.min_successful_reached)
                ⊎ (should_complete exceeds d config
                    ≡ some CompletionReason.failure_tolerance_exceeded))
    unfolding should_complete
    completion_stays c d config g = (
      λ h. ground (arith, decided_stays c d config g),
      λ h. ground (arith, decided_stays c d config g h),
    )

-- Recording a success, a failure or a suspension in consistent counters, while a task is pending,
-- keeps them consistent, never takes a count back, and counts exactly one pending task less.
pub record_one :
    (c : ExecutionCounters)
    → IsConsistent c
    → has_pending c ≡ true
    → (IsConsistent (complete_task c)
        × Grows c (complete_task c)
        × (suc (pending_count (complete_task c)) ≡ pending_count c))
      × (IsConsistent (fail_task c)
          × Grows c (fail_task c)
          × (suc (pending_count (fail_task c)) ≡ pending_count c))
      × (IsConsistent (suspend_task c)
          × Grows c (suspend_task c)
          × (suc (pending_count (suspend_task c)) ≡ pending_count c))
unfolding has_pending complete_task fail_task suspend_task
record_one c k p = (
  (ground arith, ground arith, ground arith),
  (ground arith, ground arith, ground arith),
  (ground arith, ground arith, ground arith),
)
