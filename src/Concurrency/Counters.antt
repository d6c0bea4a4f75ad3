-- ===== src/Concurrency/Counters.antt =====
-- `ExecutionCounters` and `CompletionReason` of sdk/src/concurrency.rs, and `CompletionConfig` of
-- sdk/src/config.rs. Counters are usize words of 64 bits. The f64 type `F` and the comparison
-- `failures as f64 / total as f64 > percentage` are parameters.
pub mod Laws
pub mod Tests
use durable_execution_rust_s.Prelude.{
  ℕ, zero, suc, ◌+◌, ◌-◌, ◌%◌, ltb, leb, if◌then◌else◌, Bool, true, false, ◌&&◌, ◌||◌, Option, none,
  some,
}

pub record CompletionConfig (F : Type 0) : Type 0 where
  pub min_successful : Option ℕ
  pub tolerated_failure_count : Option ℕ
  pub tolerated_failure_percentage : Option F

pub record ExecutionCounters : Type 0 where
  pub total_tasks : ℕ
  pub success_count : ℕ
  pub failure_count : ℕ
  pub completed_count : ℕ
  pub suspended_count : ℕ

pub data CompletionReason : Type 0 where
  all_completed min_successful_reached failure_tolerance_exceeded suspended : CompletionReason

abbrev pub usize_mod : ℕ
usize_mod = 18446744073709551616

-- `fetch_add(1, Relaxed)` wraps around.
abbrev pub fetch_inc : ℕ → ℕ
fetch_inc n = (n + 1) % usize_mod

unfoldable pub new_counters : ℕ → ExecutionCounters
new_counters total = record {
  total_tasks = total;
  success_count = 0;
  failure_count = 0;
  completed_count = 0;
  suspended_count = 0;
}

-- The two increments of `complete_task`, and of `fail_task`, are two atomic operations.
unfoldable pub count_completed : ExecutionCounters → ExecutionCounters
count_completed c = record c { completed_count = fetch_inc c.completed_count }

unfoldable pub count_success : ExecutionCounters → ExecutionCounters
count_success c = record c { success_count = fetch_inc c.success_count }

unfoldable pub count_failure : ExecutionCounters → ExecutionCounters
count_failure c = record c { failure_count = fetch_inc c.failure_count }

unfoldable pub complete_task : ExecutionCounters → ExecutionCounters
unfolding count_completed count_success
complete_task c = count_success (count_completed c)

unfoldable pub fail_task : ExecutionCounters → ExecutionCounters
unfolding count_completed count_failure
fail_task c = count_failure (count_completed c)

unfoldable pub suspend_task : ExecutionCounters → ExecutionCounters
suspend_task c = record c { suspended_count = fetch_inc c.suspended_count }

-- `saturating_sub` is the truncated subtraction.
unfoldable pub pending_count : ExecutionCounters → ℕ
pending_count c = c.total_tasks - (c.completed_count + c.suspended_count)

unfoldable pub has_pending : ExecutionCounters → Bool
unfolding pending_count
has_pending c = ltb 0 (pending_count c)

unfoldable pub all_completed_tasks : ExecutionCounters → Bool
all_completed_tasks c = leb c.total_tasks c.completed_count

unfoldable pub is_min_successful_reached : ExecutionCounters → ℕ → Bool
is_min_successful_reached c min_successful = leb min_successful c.success_count

unfoldable pub min_reached : ExecutionCounters → Option ℕ → Bool
unfolding is_min_successful_reached
min_reached c none = false
min_reached c (some m) = is_min_successful_reached c m

over_count : ExecutionCounters → Option ℕ → Bool
over_count c none = false
over_count c (some most) = ltb most c.failure_count

module _ {F : Type 0} (exceeds : ℕ → ℕ → F → Bool) where
  over_percentage : ExecutionCounters → Option F → Bool
  over_percentage c none = false
  over_percentage c (some p) = ltb 0 c.total_tasks && exceeds c.failure_count c.total_tasks p

  unfoldable pub is_failure_tolerance_exceeded : ExecutionCounters → CompletionConfig F → Bool
  unfolding over_count over_percentage
  is_failure_tolerance_exceeded c config =
      over_count c config.tolerated_failure_count
      || over_percentage c config.tolerated_failure_percentage

  -- `completed + suspended` is added without the wrap-around: each task is counted once, so the sum
  -- of a run is at most the number of its tasks.
  unfoldable pub should_complete : ExecutionCounters → CompletionConfig F → Option CompletionReason
  unfolding min_reached is_failure_tolerance_exceeded
  should_complete c config =
      if min_reached c config.min_successful
      then some CompletionReason.min_successful_reached
      else if is_failure_tolerance_exceeded c config
      then some CompletionReason.failure_tolerance_exceeded
      else if leb c.total_tasks (c.completed_count + c.suspended_count)
      then (if ltb 0 c.suspended_count && ltb c.completed_count c.total_tasks
          then some CompletionReason.suspended
          else some CompletionReason.all_completed)
      else none
