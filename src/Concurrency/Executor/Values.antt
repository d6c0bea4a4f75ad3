-- ===== src/Concurrency/Executor/Values.antt =====
-- What `get_results` answers on the batch result of `ConcurrentExecutor::execute`
-- (sdk/src/concurrency.rs).
use durable_execution_rust_s.Prelude.{
  ℕ, zero, suc, ◌<◌, ◌≡◌, ◌≢◌, refl, ap, ◌∙◌, sym, subst, if◌then◌else◌, Bool, true, false, Option,
  none, some, List, [], ◌∷◌, length, map, All, arith,
}
use durable_execution_rust_s.Prelude.Tally.{get_elem?, All-set, All-get}
use durable_execution_rust_s.Errors.{Result, ok, err, DurableError, error_object_from}
use durable_execution_rust_s.Concurrency.Counters.{CompletionConfig, CompletionReason, usize_mod}
use durable_execution_rust_s.Concurrency.Counters.Laws.{MoreExceeds}
use durable_execution_rust_s.Concurrency.Batch.{
  BatchItem, is_success, is_tolerance_exceeded, failed_item, get_results, succeeded_items,
  success_count,
}
use durable_execution_rust_s.Concurrency.Batch.Laws.{HasOwnResult, results_of}
use durable_execution_rust_s.Concurrency.Executor.{
  Phase, Task, Exec, put, record_result, finish, by_phase, at_task, step, start, pending_tasks,
  collect,
}
use durable_execution_rust_s.Concurrency.Executor.Progress.{Reach, here, next, AllFinished}
use durable_execution_rust_s.Concurrency.Executor.Outcome.{
  items_of, collect-items, result_matches_counters,
}

length-map {ℓ κ} :
    {A : Type ℓ} {B : Type κ} (f : A → B) (xs : List A) → length (map f xs) ≡ length xs
length-map f [] = refl
length-map f (x ∷ xs) = ap suc (length-map f xs)

module _ {T : Type 0} where
  abbrev Owns : Task T → Type 0
  Owns t = HasOwnResult t.item

  abbrev Owned : Option (Exec T) → Type 0
  Owned none = Unit {0}
  Owned (some e) = All Owns e.tasks

  if_Owned : (b : Bool) (o o' : Option (Exec T)) → Owned o → Owned o' → Owned (if b then o else o')
  if_Owned true o o' h h' = h
  if_Owned false o o' h h' = h'

  recorded_Owned :
      (e : Exec T) (i : ℕ) (t : Task T) (x : Result T)
      → All Owns e.tasks
      → All Owns (record_result e i t x).tasks
  unfolding record_result is_success error_object_from
  recorded_Owned e i t (ok v) h = All-set Owns e.tasks i _ refl h
  recorded_Owned e i t (err (DurableError.suspend at)) h = All-set Owns e.tasks i _ refl h
  recorded_Owned e i t (err x) h =
      All-set Owns e.tasks i
        (record { phase = Phase.recording; item = failed_item t.item.index (error_object_from x) })
        refl h

  items_Owned : (ts : List (Task T)) → All Owns ts → All HasOwnResult (items_of ts)
  items_Owned [] h = tt
  items_Owned (t ∷ ts) h = (h.0, items_Owned ts h.1)

pending_Owned : (T : Type 0) (n i : ℕ) → All Owns (pending_tasks {T = T} n i)
unfolding pending_tasks is_success
pending_Owned T zero i = tt
pending_Owned T (suc n) i = (refl, pending_Owned T n (suc i))

module _ {T F : Type 0} (exceeds : ℕ → ℕ → F → Bool) (config : CompletionConfig F) where
  phase_Owned :
      (p : Phase T) (e : Exec T) (i : ℕ) (t : Task T) (r : Result T)
      → Owns t
      → All Owns e.tasks
      → Owned (by_phase exceeds config p e i t r)
  unfolding by_phase put finish is_success
  phase_Owned Phase.queued e i t r k h = if_Owned _ (some _) none (All-set Owns e.tasks i _ k h) tt
  phase_Owned Phase.admitted e i t r k h = All-set Owns e.tasks i _ k h
  phase_Owned Phase.cancelling e i t r k h =
      if_Owned e.locked none (some _) tt (All-set Owns e.tasks i _ refl h)
  phase_Owned Phase.running e i t r k h = All-set Owns e.tasks i _ k h
  phase_Owned (Phase.returned x) e i t r k h =
      if_Owned e.locked none (some _) tt (recorded_Owned e i t x h)
  phase_Owned Phase.recording e i t r k h = All-set Owns e.tasks i _ k h
  phase_Owned Phase.finished e i t r k h = tt

  task_Owned :
      (o : Option (Task T)) (e : Exec T) (i : ℕ) (r : Result T)
      → get_elem? e.tasks i ≡ o
      → All Owns e.tasks
      → Owned (at_task exceeds config o e i r)
  unfolding at_task
  task_Owned none e i r g h = tt
  task_Owned (some t) e i r g h = phase_Owned t.phase e i t r (All-get Owns e.tasks i t h g) h

  reached_Owned :
      (limit : Option ℕ) (total : ℕ) {n : ℕ} {e : Exec T}
      → Reach exceeds config (start total limit) n e
      → All Owns e.tasks
  unfolding start step
  reached_Owned limit total here = pending_Owned T total 0
  reached_Owned limit total (next {n} {e} {e'} i r reach h) =
      subst Owned h (task_Owned (get_elem? e.tasks i) e i r refl (reached_Owned limit total reach))

-- For fewer than 2 ^ 64 tasks and a percentage test that more failures never undo: when every task
-- of a run has finished and the failure tolerance is not the reason of its end, get_results of the
-- batch result gives exactly the values of the succeeded items, in the order of the tasks, and
-- they are as many as the counter of successes says.
pub get_results_complete :
    {T F : Type 0} (exceeds : ℕ → ℕ → F → Bool) (more : MoreExceeds exceeds)
    (config : CompletionConfig F) (limit : Option ℕ) (total : ℕ) (small : total < usize_mod) {n : ℕ}
    (e : Exec T)
    → Reach exceeds config (start total limit) n e
    → AllFinished e
    → (collect exceeds config e).completion_reason ≢ CompletionReason.failure_tolerance_exceeded
    → (vs : List T) × (get_results (collect exceeds config e) ≡ ok vs)
      × (map (λ (item : BatchItem T). item.result) (succeeded_items (collect exceeds config e))
          ≡ map some vs)
      × (length vs ≡ e.counters.success_count)
unfolding is_tolerance_exceeded success_count
get_results_complete exceeds more config limit total small e reach end other =
    let b = collect exceeds config e in
    let (vs, answer, same) =
      results_of b
        (rw (collect-items exceeds more config limit total small e)
          (items_Owned e.tasks (reached_Owned exceeds config limit total reach)))
        (ground arith) in
    let (pend, successes, failures, settled, size) =
      result_matches_counters exceeds more config limit total small e reach end in
    let as_many : length (succeeded_items b) ≡ length vs =
      sym (length-map _ (succeeded_items b)) ∙ ap length same ∙ length-map some vs in
    (vs, answer, same, sym as_many ∙ successes)
