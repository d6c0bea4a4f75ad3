-- ===== src/Concurrency/Executor.antt =====
-- `ConcurrentExecutor::execute` of sdk/src/concurrency.rs as interleaved steps of its spawned tasks.
-- A step runs one task up to the next point where another task can come between: the wait for a
-- permit, the check for early completion, the user's future, the lock of the results, and the gap
-- between the two counter increments, in which the lock is held. The scheduler picks the task; where
-- the user's future runs it also picks its result. The check for early completion, whose loads of the
-- counters are separate, is one step. The entry of `results` of a task stands with the task. The
-- executor is made for as many tasks as it is given, as map and parallel make it.
pub mod Invariant
pub mod Moves
pub mod Steps
pub mod Progress
pub mod Runs
pub mod Rounds
pub mod Values
pub mod Outcome
mod Tests
use durable_execution_rust_s.Prelude.{
  ℕ, zero, suc, ◌+◌, ◌-◌, ltb, if◌then◌else◌, Bool, true, false, Option, none, some, is_some,
  unwrap_or, List, [], ◌∷◌, length, map,
}
use mathlib.Core.Option
use durable_execution_rust_s.Prelude.Tally.{get_elem?, set}
use durable_execution_rust_s.Errors.{DurableError, ErrorObject, Result, ok, err, error_object_from}
use durable_execution_rust_s.Concurrency.Counters.{
  CompletionConfig, ExecutionCounters, CompletionReason, new_counters, count_completed,
  count_success, count_failure, suspend_task, should_complete,
}
use durable_execution_rust_s.Concurrency.Batch.{
  BatchItem, BatchItemStatus, BatchResult, succeeded_item, failed_item, cancelled_item,
  pending_item, suspended_item, is_success, empty,
}

pub data Phase (T : Type 0) : Type 0 where
  -- waits for a permit; has it and is about to check; is about to write `cancelled`
  queued admitted cancelling running : Phase T
  -- the user's future has returned
  returned : Result T → Phase T
  -- has written its item and counted it as completed; holds the lock
  recording : Phase T
  finished : Phase T

pub record Task (T : Type 0) : Type 0 where
  pub phase : Phase T
  pub item : BatchItem T

pub record Exec (T : Type 0) : Type 0 where
  pub counters : ExecutionCounters
  pub tasks : List (Task T)
  -- the free permits of the semaphore, if there is one
  pub permits : Option ℕ
  pub locked : Bool

pub can_acquire : Option ℕ → Bool
can_acquire none = true
can_acquire (some n) = ltb 0 n

-- Dropping the permit at the end of the task.
pub release : Option ℕ → Option ℕ
release permits = Option.map suc permits

pub acquire : Option ℕ → Option ℕ
acquire permits = Option.map (λ n. n - 1) permits

module _ {T : Type 0} where
  -- `(0..total).map(BatchItem::pending)`, each task still queued.
  pending_tasks : ℕ → ℕ → List (Task T)
  pending_tasks zero i = []
  pending_tasks (suc n) i =
      record { phase = Phase.queued; item = pending_item i } ∷ pending_tasks n (suc i)

  unfoldable pub start : ℕ → Option ℕ → Exec T
  unfolding pending_tasks new_counters
  start total max_concurrency = record {
    counters = new_counters total;
    tasks = pending_tasks total 0;
    permits = max_concurrency;
    locked = false;
  }

  put : Exec T → ℕ → Task T → Exec T
  put e i t = record e { tasks = set e.tasks i t }

  -- The item and the first counter for what the future returned.
  record_result : Exec T → ℕ → Task T → Result T → Exec T
  unfolding put count_completed suspend_task release error_object_from
  record_result e i t (ok v) = record e {
    tasks =
        set e.tasks i (record { phase = Phase.recording; item = succeeded_item t.item.index v });
    counters = count_completed e.counters;
    locked = true;
  }
  record_result e i t (err (DurableError.suspend at)) = record e {
    tasks = set e.tasks i (record { phase = Phase.finished; item = suspended_item t.item.index });
    counters = suspend_task e.counters;
    permits = release e.permits;
  }
  record_result e i t (err x) = record e {
    tasks =
        set e.tasks i (record {
          phase = Phase.recording;
          item = failed_item t.item.index (error_object_from x);
        });
    counters = count_completed e.counters;
    locked = true;
  }

  -- The second counter, the release of the lock and of the permit.
  finish : Exec T → ℕ → Task T → Exec T
  unfolding count_success count_failure is_success release
  finish e i t = record e {
    tasks = set e.tasks i (record t { phase = Phase.finished });
    counters =
        if is_success t.item.status then count_success e.counters else count_failure e.counters;
    permits = release e.permits;
    locked = false;
  }

  module _ {F : Type 0} (exceeds : ℕ → ℕ → F → Bool) (config : CompletionConfig F) where
    -- One step of task `i`, which is `t`; `r` is what its future returns if it runs. A task that
    -- has to wait makes no step.
    by_phase : Phase T → Exec T → ℕ → Task T → Result T → Option (Exec T)
    unfolding can_acquire acquire release put record_result finish
    by_phase Phase.queued e i t r =
        if can_acquire e.permits
        then some (record e {
          tasks = set e.tasks i (record t { phase = Phase.admitted });
          permits = acquire e.permits;
        })
        else none
    by_phase Phase.admitted e i t r = some (
        put e i (record t {
          phase =
              if is_some (should_complete exceeds e.counters config)
              then Phase.cancelling
              else Phase.running;
        }))
    by_phase Phase.cancelling e i t r =
        if e.locked
        then none
        else some (record e {
          tasks =
              set e.tasks i (record { phase = Phase.finished; item = cancelled_item t.item.index });
          permits = release e.permits;
        })
    by_phase Phase.running e i t r = some (put e i (record t { phase = Phase.returned r }))
    by_phase (Phase.returned result) e i t r =
        if e.locked then none else some (record_result e i t result)
    by_phase Phase.recording e i t r = some (finish e i t)
    by_phase Phase.finished e i t r = none

    at_task : Option (Task T) → Exec T → ℕ → Result T → Option (Exec T)
    unfolding by_phase
    at_task none e i r = none
    at_task (some t) e i r = by_phase t.phase e i t r

    unfoldable pub step : Exec T → ℕ → Result T → Option (Exec T)
    unfolding at_task
    step e i r = at_task (get_elem? e.tasks i) e i r

    -- What `execute` returns once every handle has been awaited.
    unfoldable pub collect : Exec T → BatchResult T
    unfolding empty
    collect e = elim e.tasks [
      | [] ↦ empty
      | t ∷ ts ↦ record {
        items = map (λ (t : Task T). t.item) (t ∷ ts);
        completion_reason =
            unwrap_or (should_complete exceeds e.counters config) CompletionReason.all_completed;
      }
    ]
