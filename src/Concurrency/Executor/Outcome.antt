-- ===== src/Concurrency/Executor/Outcome.antt =====
-- The batch result of `ConcurrentExecutor::execute` (sdk/src/concurrency.rs) once every task has
-- finished.
use durable_execution_rust_s.Prelude.{
  ℕ, suc, ◌+◌, ◌≤◌, ◌<◌, ◌≡◌, ◌⊎◌, inl, inr, refl, ap, ◌∙◌, sym, Bool, true, Option, some,
  unwrap_or, List, [], ◌∷◌, length, All, arith, Option-cases, select, map,
}
use durable_execution_rust_s.Prelude.Tally.{tally}
use durable_execution_rust_s.Concurrency.Counters.{
  CompletionConfig, CompletionReason, usize_mod, should_complete, has_pending,
}
use durable_execution_rust_s.Concurrency.Counters.Laws.{
  MoreExceeds, is_decided, should_complete-none_iff,
}
use durable_execution_rust_s.Concurrency.Batch.{
  BatchItem, BatchItemStatus, is_succeeded, is_failed, success_count, failure_count, total_count,
  is_success, is_failure,
}
use durable_execution_rust_s.Concurrency.Executor.{Phase, Task, Exec, start, collect}
use durable_execution_rust_s.Concurrency.Executor.Invariant.{
  done, success, failure, suspended, stopped, Coherent, Inv, cancelled_status, pending_status,
}
use durable_execution_rust_s.Concurrency.Executor.Progress.{Reach, AllFinished}
use durable_execution_rust_s.Concurrency.Executor.Runs.{Reach-Inv}

module _ {T : Type 0} where
  abbrev pub Finished : List (Task T) → Type 0
  Finished ts = All (λ (t : Task T). t.phase ≡ Phase.finished) ts

  abbrev pub items_of : List (Task T) → List (BatchItem T)
  items_of ts = map (λ (t : Task T). t.item) ts

  -- The items with a status, as a weight.
  abbrev pub items_with : (BatchItemStatus → ℕ) → List (BatchItem T) → ℕ
  items_with f items = tally (λ (b : BatchItem T). f b.status) items

  tally-success :
      (ts : List (Task T))
      → Finished ts
      → tally success ts ≡ length (select is_succeeded (items_of ts))
  unfolding is_succeeded is_success
  tally-success [] h = refl
  tally-success (t ∷ ts) h = ground (arith, tally-success ts h.1)

  tally-failure :
      (ts : List (Task T))
      → Finished ts
      → tally failure ts ≡ length (select is_failed (items_of ts))
  unfolding is_failed is_failure
  tally-failure [] h = refl
  tally-failure (t ∷ ts) h = ground (arith, tally-failure ts h.1)

  tally-items :
      (f : BatchItemStatus → ℕ) (ts : List (Task T))
      → tally (λ (t : Task T). f t.item.status) ts ≡ items_with f (items_of ts)
  tally-items f [] = refl
  tally-items f (t ∷ ts) = ap (λ n. f t.item.status + n) (tally-items f ts)

  stopped-ge : (ts : List (Task T)) → items_with cancelled_status (items_of ts) ≤ tally stopped ts
  stopped-ge [] = omega arith
  stopped-ge (t ∷ ts) = omega (arith, stopped-ge ts)

  length-items : (ts : List (Task T)) → length (items_of ts) ≡ length ts
  length-items [] = refl
  length-items (t ∷ ts) = ap suc (length-items ts)

  settled :
      (ts : List (Task T))
      → Finished ts
      → All Coherent ts
      → (items_with pending_status (items_of ts) ≡ 0)
        × (tally done ts + tally suspended ts + items_with cancelled_status (items_of ts)
            ≡ length ts)
  settled [] h k = (refl, refl)
  settled (t ∷ ts) h k =
      let rest = settled ts h.1 k.1 in
      let own : done t + suspended t + cancelled_status t.item.status ≡ 1 = ground arith in
      (ground arith, omega arith)

module _ {T F : Type 0} (exceeds : ℕ → ℕ → F → Bool) (more : MoreExceeds exceeds)
    (config : CompletionConfig F) (limit : Option ℕ) (total : ℕ) (small : total < usize_mod) where
  pub collect-items : (e : Exec T) → (collect exceeds config e).items ≡ items_of e.tasks
  unfolding collect
  collect-items e = go e.tasks refl
    where
      go : (ts : List (Task T)) → e.tasks ≡ ts → (collect exceeds config e).items ≡ items_of e.tasks
      go [] h = rw (h, collect) refl
      go (t ∷ ts) h = rw (h, collect) refl

  collect-reason :
      (e : Exec T)
      → 0 < length e.tasks
      → (collect exceeds config e).completion_reason
        ≡ unwrap_or (should_complete exceeds e.counters config) CompletionReason.all_completed
  unfolding collect
  collect-reason e h = go e.tasks refl
    where
      go :
          (ts : List (Task T))
          → e.tasks ≡ ts
          → (collect exceeds config e).completion_reason
            ≡ unwrap_or (should_complete exceeds e.counters config) CompletionReason.all_completed
      go [] k = absurd (omega (arith, ap length k))
      go (t ∷ ts) k = rw (k, collect) refl

  by_decision :
      (e : Exec T) (reason : CompletionReason)
      → (collect exceeds config e).completion_reason ≡ reason
      → should_complete exceeds e.counters config ≡ some reason
      → is_decided exceeds e.counters config ≡ true
      → ((collect exceeds config e).completion_reason ≡ CompletionReason.min_successful_reached)
        ⊎ ((collect exceeds config e).completion_reason
            ≡ CompletionReason.failure_tolerance_exceeded)
  unfolding should_complete
  by_decision e reason shown found h = ground arith

  -- A full batch is to complete, and a cancelled item means that it was decided.
  full_completes :
      (e : Exec T)
      → Inv exceeds config limit total e
      → e.counters.total_tasks
        ≤ e.counters.completed_count
          + e.counters.suspended_count
          + items_with cancelled_status (items_of e.tasks)
      → (0 < items_with cancelled_status (items_of e.tasks)
          → is_decided exceeds e.counters config ≡ true)
        × ((reason : CompletionReason) × (should_complete exceeds e.counters config ≡ some reason))
  full_completes e v full = (
    λ c. v.stopping (omega (arith, stopped-ge e.tasks)),
    elim (Option-cases (should_complete exceeds e.counters config)) [
      | inr found ↦ found
      | inl open_still ↦
          let (undecided, left) =
            (should_complete-none_iff exceeds e.counters config).0 open_still in
          absurd (unfold has_pending in ground (arith, stopped-ge e.tasks, v.stopping))
    ],
  )

  module _ {n : ℕ} (e : Exec T) (reach : Reach exceeds config (start total limit) n e)
      (end : AllFinished e) where
    -- For fewer than 2 ^ 64 tasks and a percentage test that more failures never undo: when every
    -- task of a run has finished, the batch result has no pending item, its counts of succeeded
    -- and failed items are the counters, and every one of the tasks' items is completed, suspended
    -- or cancelled.
    pub result_matches_counters :
        (items_with pending_status (collect exceeds config e).items ≡ 0)
        × (success_count (collect exceeds config e) ≡ e.counters.success_count)
        × (failure_count (collect exceeds config e) ≡ e.counters.failure_count)
        × (e.counters.completed_count
              + e.counters.suspended_count
              + items_with cancelled_status (collect exceeds config e).items
            ≡ total_count (collect exceeds config e))
        × (total_count (collect exceeds config e) ≡ total)
    unfolding success_count failure_count total_count
    result_matches_counters =
        let v = Reach-Inv exceeds more config limit total small reach in
        let (pend, sum) = settled e.tasks end v.coherent in
        rw (collect-items e) (
          pend,
          sym (v.counted.succeeded ∙ tally-success e.tasks end),
          sym (v.counted.failed ∙ tally-failure e.tasks end),
          omega (arith, v.counted.completed, v.counted.suspends, sum, length-items e.tasks),
          omega (arith, v.sized, v.counted.total, length-items e.tasks),
        )

    -- For fewer than 2 ^ 64 tasks and a percentage test that more failures never undo: when every
    -- task of a run of at least one task has finished, the reason of the batch result is a
    -- decision of the counters, so the fallback to AllCompleted is never taken, and an item was
    -- cancelled only if the minimum of successes or the failure tolerance decided the batch.
    pub reason_is_decided :
        0 < total
        → (should_complete exceeds e.counters config
            ≡ some (collect exceeds config e).completion_reason)
          × (0 < items_with cancelled_status (collect exceeds config e).items
              → ((collect exceeds config e).completion_reason
                  ≡ CompletionReason.min_successful_reached)
                ⊎ ((collect exceeds config e).completion_reason
                    ≡ CompletionReason.failure_tolerance_exceeded))
    reason_is_decided h =
        let v = Reach-Inv exceeds more config limit total small reach in
        let (pend, sum) = settled e.tasks end v.coherent in
        let full : e.counters.total_tasks
            ≤ e.counters.completed_count
              + e.counters.suspended_count
              + items_with cancelled_status (items_of e.tasks) =
          omega (arith, v.counted.completed, v.counted.suspends, sum, v.counted.total) in
        let (decided, (reason, found)) = full_completes e v full in
        let shown : (collect exceeds config e).completion_reason ≡ reason =
          collect-reason e (omega (arith, v.sized, v.counted.total))
          ∙ ap (λ o. unwrap_or o CompletionReason.all_completed) found in
        (
          found ∙ ap {B = Option CompletionReason} some (sym shown),
          rw (collect-items e) λ c. by_decision e reason shown found (decided c),
        )
