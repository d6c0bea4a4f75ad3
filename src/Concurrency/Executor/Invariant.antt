-- ===== src/Concurrency/Executor/Invariant.antt =====
-- The invariant of `ConcurrentExecutor::execute` (sdk/src/concurrency.rs): the tasks, the counters,
-- the lock and the semaphore between any two steps.
use durable_execution_rust_s.Prelude.{
  ℕ, ◌+◌, ◌<◌, ◌≡◌, Bool, true, false, Option, none, some, List, length, All,
}
use durable_execution_rust_s.Prelude.Tally.{tally}
use durable_execution_rust_s.Concurrency.Counters.{CompletionConfig, ExecutionCounters, usize_mod}
use durable_execution_rust_s.Concurrency.Counters.Laws.{is_decided}
use durable_execution_rust_s.Concurrency.Batch.{BatchItemStatus}
use durable_execution_rust_s.Concurrency.Executor.{Phase, Task, Exec}

abbrev pub done_status : BatchItemStatus → ℕ
done_status BatchItemStatus.succeeded = 1
done_status BatchItemStatus.failed = 1
done_status _ = 0

abbrev pub success_status : BatchItemStatus → ℕ
success_status BatchItemStatus.succeeded = 1
success_status _ = 0

abbrev pub failure_status : BatchItemStatus → ℕ
failure_status BatchItemStatus.failed = 1
failure_status _ = 0

abbrev pub suspended_status : BatchItemStatus → ℕ
suspended_status BatchItemStatus.suspended = 1
suspended_status _ = 0

abbrev pub cancelled_status : BatchItemStatus → ℕ
cancelled_status BatchItemStatus.cancelled = 1
cancelled_status _ = 0

abbrev pub pending_status : BatchItemStatus → ℕ
pending_status BatchItemStatus.pending = 1
pending_status _ = 0

abbrev pub lock_count : Bool → ℕ
lock_count true = 1
lock_count false = 0

-- The permits in use and the free ones are as many as the limit.
abbrev pub Permitted : Option ℕ → Option ℕ → ℕ → Type 0
Permitted none none used = Unit {0}
Permitted none (some p) used = ⊥
Permitted (some n) none used = ⊥
Permitted (some n) (some p) used = p + used ≡ n

module _ {T : Type 0} where
  -- The task counts only when it has made its second increment.
  abbrev pub when_finished : Phase T → ℕ → ℕ
  when_finished Phase.finished n = n
  when_finished _ n = 0

  abbrev pub is_recording : Phase T → ℕ
  is_recording Phase.recording = 1
  is_recording _ = 0

  -- The task holds a permit, if there are permits.
  abbrev pub is_active : Phase T → ℕ
  is_active Phase.queued = 0
  is_active Phase.finished = 0
  is_active _ = 1

  abbrev pub is_cancelling : Phase T → ℕ
  is_cancelling Phase.cancelling = 1
  is_cancelling _ = 0

  abbrev pub done : Task T → ℕ
  done t = done_status t.item.status

  abbrev pub success : Task T → ℕ
  success t = when_finished t.phase (success_status t.item.status)

  abbrev pub failure : Task T → ℕ
  failure t = when_finished t.phase (failure_status t.item.status)

  abbrev pub suspended : Task T → ℕ
  suspended t = suspended_status t.item.status

  abbrev pub recording : Task T → ℕ
  recording t = is_recording t.phase

  abbrev pub active : Task T → ℕ
  active t = is_active t.phase

  abbrev pub stopped : Task T → ℕ
  stopped t = cancelled_status t.item.status + is_cancelling t.phase

  -- The status that goes with a phase.
  abbrev pub Fits : Phase T → BatchItemStatus → Type 0
  Fits Phase.recording s = done_status s ≡ 1
  Fits Phase.finished s = pending_status s ≡ 0
  Fits _ s = s ≡ BatchItemStatus.pending

  abbrev pub Coherent : Task T → Type 0
  Coherent t = Fits t.phase t.item.status

  pub record Counted (c : ExecutionCounters) (ts : List (Task T)) : Type 0 where
    pub total : c.total_tasks ≡ length ts
    pub small : length ts < usize_mod
    pub completed : c.completed_count ≡ tally done ts
    pub succeeded : c.success_count ≡ tally success ts
    pub failed : c.failure_count ≡ tally failure ts
    pub suspends : c.suspended_count ≡ tally suspended ts

  module _ {F : Type 0} (exceeds : ℕ → ℕ → F → Bool) (config : CompletionConfig F)
      (limit : Option ℕ) (total : ℕ) where
    pub record Inv (e : Exec T) : Type 0 where
      pub sized : e.counters.total_tasks ≡ total
      pub counted : Counted e.counters e.tasks
      pub coherent : All Coherent e.tasks
      pub locking : tally recording e.tasks ≡ lock_count e.locked
      pub permitted : Permitted limit e.permits (tally active e.tasks)
      pub stopping : 0 < tally stopped e.tasks → is_decided exceeds e.counters config ≡ true
