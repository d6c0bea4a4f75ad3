-- ===== src/Concurrency/Executor/Runs.antt =====
-- Runs of `ConcurrentExecutor::execute` (sdk/src/concurrency.rs) from its start: the concurrency
-- limit, the length of runs, and deadlocks.
use durable_execution_rust_s.Prelude.{
  ℕ, zero, suc, ◌+◌, ◌*◌, ◌≤◌, ◌<◌, ◌≡◌, ◌≢◌, ◌⊎◌, inl, inr, refl, ap, ◌∙◌, sym, subst,
  if◌then◌else◌, Bool, true, false, Option, none, some, length, All, arith,
}
use native.Mathlib.Decide.{dec_lt}
use durable_execution_rust_s.Prelude.Tally.{get_elem?, tally, tally-positive, weight-le-tally}
use durable_execution_rust_s.Errors.{Result}
use durable_execution_rust_s.Concurrency.Counters.{CompletionConfig, usize_mod, new_counters}
use durable_execution_rust_s.Concurrency.Counters.Laws.{MoreExceeds}
use durable_execution_rust_s.Concurrency.Batch.{pending_item}
use durable_execution_rust_s.Concurrency.Executor.{
  Phase, Task, Exec, can_acquire, finish, by_phase, at_task, step, start, pending_tasks,
}
use durable_execution_rust_s.Concurrency.Executor.Invariant.{
  done, success, failure, suspended, recording, active, stopped, Coherent, Permitted, Inv,
}
use durable_execution_rust_s.Concurrency.Executor.Steps.{step-Inv}
use durable_execution_rust_s.Concurrency.Executor.Progress.{
  Reach, here, next, task_rank, steps_left, run_bounded,
}

Permitted-start : (limit : Option ℕ) (n : ℕ) → n ≡ 0 → Permitted limit limit n
Permitted-start none n h = tt
Permitted-start (some k) n h = omega arith

permit_left :
    (l p : Option ℕ) (used : ℕ) → Permitted l p used → l ≢ some 0 → used ≡ 0 → can_acquire p ≡ true
unfolding can_acquire
permit_left none none used q n u = refl
permit_left none (some k) used q n u = absurd q
permit_left (some m) none used q n u = absurd q
permit_left (some zero) (some k) used q n u = absurd (n refl)
permit_left (some (suc m)) (some k) used q n u = ground arith

module _ (T : Type 0) where
  length-pending_tasks : (n i : ℕ) → length (pending_tasks {T = T} n i) ≡ n
  unfolding pending_tasks
  length-pending_tasks zero i = refl
  length-pending_tasks (suc n) i = ap suc (length-pending_tasks n (suc i))

  tally-pending_tasks :
      (w : Task T → ℕ) (k n i : ℕ)
      → ((j : ℕ) → w (record { phase = Phase.queued; item = pending_item j }) ≡ k)
      → tally w (pending_tasks n i) ≡ n * k
  unfolding pending_tasks
  tally-pending_tasks w k zero i h = omega arith
  tally-pending_tasks w k (suc n) i h = grind (arith, h i, tally-pending_tasks w k n (suc i) h)

  pending_tasks-Coherent : (n i : ℕ) → All Coherent (pending_tasks {T = T} n i)
  unfolding pending_tasks
  pending_tasks-Coherent zero i = tt
  pending_tasks-Coherent (suc n) i = (refl, pending_tasks-Coherent n (suc i))

module _ {T F : Type 0} (exceeds : ℕ → ℕ → F → Bool) (more : MoreExceeds exceeds)
    (config : CompletionConfig F) (limit : Option ℕ) (total : ℕ) (small : total < usize_mod) where
  pub start-Inv : Inv {T = T} exceeds config limit total (start total limit)
  unfolding start new_counters
  start-Inv = record {
    sized = refl;
    counted = record {
      total = sym (length-pending_tasks T total 0);
      small = omega (arith, length-pending_tasks T total 0);
      completed = omega (arith, tally-pending_tasks T done 0 total 0 (λ j. refl));
      succeeded = omega (arith, tally-pending_tasks T success 0 total 0 (λ j. refl));
      failed = omega (arith, tally-pending_tasks T failure 0 total 0 (λ j. refl));
      suspends = omega (arith, tally-pending_tasks T suspended 0 total 0 (λ j. refl));
    };
    coherent = pending_tasks-Coherent T total 0;
    locking = omega (arith, tally-pending_tasks T recording 0 total 0 (λ j. refl));
    permitted =
        Permitted-start limit (tally active (pending_tasks {T = T} total 0))
          (omega (arith, tally-pending_tasks T active 0 total 0 (λ j. refl)));
    stopping = λ h. absurd (omega (arith, tally-pending_tasks T stopped 0 total 0 (λ j. refl)));
  }

  pub Reach-Inv :
      {n : ℕ} {e : Exec T}
      → Reach exceeds config (start total limit) n e
      → Inv exceeds config limit total e
  Reach-Inv here = start-Inv
  Reach-Inv (next {n} {e} {e'} i r reach h) =
      step-Inv exceeds more config limit total e e' i r h (Reach-Inv reach)

  -- For fewer than 2 ^ 64 tasks and a percentage test that more failures never undo: at no time of
  -- a run do more tasks hold a permit, and so run user code, than the concurrency limit allows.
  pub concurrency_limited :
      {n : ℕ} {e : Exec T} (most : ℕ)
      → Reach exceeds config (start total limit) n e
      → limit ≡ some most
      → tally active e.tasks ≤ most
  concurrency_limited {n} {e} most reach h =
      used_within e.permits
        (subst (λ l. Permitted l e.permits (tally active e.tasks)) h (Reach-Inv reach).permitted)
    where
      used_within :
          (p : Option ℕ)
          → Permitted (some most) p (tally active e.tasks)
          → tally active e.tasks ≤ most
      used_within none q = absurd q
      used_within (some k) q = omega arith

  -- For fewer than 2 ^ 64 tasks and a percentage test that more failures never undo: a run has at
  -- most five steps for each task, as the steps made and those left never exceed that.
  pub runs_end :
      {n : ℕ} {e : Exec T}
      → Reach exceeds config (start total limit) n e
      → n + steps_left e ≤ total * 5
  unfolding start
  runs_end reach = omega (
    arith,
    run_bounded exceeds config reach,
    tally-pending_tasks T task_rank 5 total 0 (λ j. refl),
  )

  -- A task that makes a step whenever it is picked, in a state that satisfies the invariant.
  Ready : Exec T → Type 0
  Ready e = (i : ℕ) × ((r : Result T) → (e' : Exec T) × (step exceeds config e i r ≡ some e'))

  step_at :
      (e : Exec T) (i : ℕ) (t : Task T) (r : Result T)
      → get_elem? e.tasks i ≡ some t
      → step exceeds config e i r ≡ by_phase exceeds config t.phase e i t r
  unfolding step at_task
  step_at e i t r g = rw (g, at_task) refl

  ready :
      (e : Exec T) (i : ℕ) (t : Task T)
      → get_elem? e.tasks i ≡ some t
      → ((r : Result T) → (e' : Exec T) × (by_phase exceeds config t.phase e i t r ≡ some e'))
      → Ready e
  unfolding Ready
  ready e i t g h = (i, λ r. let (e', s) = h r in (e', step_at e i t r g ∙ s))

  else_moves :
      (b : Bool) (e' : Exec T)
      → b ≡ false
      → (e'' : Exec T) × ((if b then none else some e') ≡ some e'')
  else_moves true e' h = cc
  else_moves false e' h = (e', refl)

  then_moves :
      (b : Bool) (e' : Exec T)
      → b ≡ true
      → (e'' : Exec T) × ((if b then some e' else none) ≡ some e'')
  then_moves true e' h = (e', refl)
  then_moves false e' h = cc

  recording_moves :
      (e : Exec T) (i : ℕ) (t : Task T) (p : Phase T) (r : Result T)
      → t.phase ≡ p
      → 0 < recording t
      → (e' : Exec T) × (by_phase exceeds config p e i t r ≡ some e')
  unfolding by_phase
  recording_moves e i t Phase.recording r h k = (finish e i t, refl)
  recording_moves e i t p r h k = absurd (ground arith)

  active_moves :
      (e : Exec T) (i : ℕ) (t : Task T) (p : Phase T) (r : Result T)
      → t.phase ≡ p
      → 0 < active t
      → e.locked ≡ false
      → (e' : Exec T) × (by_phase exceeds config p e i t r ≡ some e')
  unfolding by_phase
  active_moves e i t Phase.queued r h k u = absurd (ground arith)
  active_moves e i t Phase.admitted r h k u = (_, refl)
  active_moves e i t Phase.cancelling r h k u = else_moves e.locked _ u
  active_moves e i t Phase.running r h k u = (_, refl)
  active_moves e i t (Phase.returned x) r h k u = else_moves e.locked _ u
  active_moves e i t Phase.recording r h k u = (_, refl)
  active_moves e i t Phase.finished r h k u = absurd (ground arith)

  queued_moves :
      (e : Exec T) (i : ℕ) (t : Task T) (p : Phase T) (r : Result T)
      → t.phase ≡ p
      → 0 < task_rank t
      → active t ≡ 0
      → can_acquire e.permits ≡ true
      → (e' : Exec T) × (by_phase exceeds config p e i t r ≡ some e')
  unfolding by_phase
  queued_moves e i t Phase.queued r h k a c = then_moves (can_acquire e.permits) _ c
  queued_moves e i t p r h k a c = absurd (ground arith)

  progress :
      (e : Exec T) → Inv exceeds config limit total e → limit ≢ some 0 → 0 < steps_left e → Ready e
  progress e v some_permits left = elim (dec_lt 0 (tally recording e.tasks)) [
    | yes h ↦
        let (i, (t, g, k)) = tally-positive recording e.tasks h in
        ready e i t g (λ r. recording_moves e i t t.phase r refl k)
    | no n ↦ elim (dec_lt 0 (tally active e.tasks)) [
      | yes h ↦
          let (i, (t, g, k)) = tally-positive active e.tasks h in
          let free : e.locked ≡ false = ground (arith, v.locking) in
          ready e i t g (λ r. active_moves e i t t.phase r refl k free)
      | no idle ↦
          let (i, (t, g, k)) = tally-positive task_rank e.tasks left in
          let none_active = weight-le-tally active e.tasks i t g in
          ready e i t g (λ r. queued_moves e i t t.phase r refl k (omega arith) (
            permit_left limit e.permits (tally active e.tasks) v.permitted some_permits
              (omega arith)))
    ]
  ]

  -- For fewer than 2 ^ 64 tasks and a percentage test that more failures never undo: in every
  -- state that a batch reaches, unless the concurrency limit is 0, some task can make a step
  -- whatever the user's futures return, as long as some task has not finished.
  pub no_deadlock :
      {n : ℕ} {e : Exec T}
      → Reach exceeds config (start total limit) n e
      → limit ≢ some 0
      → 0 < steps_left e
      → (i : ℕ) × ((r : Result T) → (e' : Exec T) × (step exceeds config e i r ≡ some e'))
  unfolding Ready
  no_deadlock {n} {e} reach h left = progress e (Reach-Inv reach) h left

queued_at :
    {T : Type 0} (n k i : ℕ)
    → (get_elem? (pending_tasks {T = T} n k) i ≡ none)
      ⊎ ((t : Task T) × (get_elem? (pending_tasks n k) i ≡ some t) × (t.phase ≡ Phase.queued))
unfolding pending_tasks
queued_at zero k i = inl refl
queued_at (suc n) k zero = inr (record { phase = Phase.queued; item = pending_item k }, refl, refl)
queued_at (suc n) k (suc i) = queued_at n (suc k) i

-- With the concurrency limit 0 no task of a batch of any size makes its first step.
pub zero_limit_stuck :
    {T F : Type 0} (exceeds : ℕ → ℕ → F → Bool) (config : CompletionConfig F) (total i : ℕ)
    (r : Result T)
    → step exceeds config (start total (some 0)) i r ≡ none
unfolding step start by_phase can_acquire
zero_limit_stuck {T} exceeds config total i r = elim (queued_at {T = T} total 0 i) [
  | inl e ↦ rw (e, at_task) refl
  | inr (t, e, q) ↦ rw (e, at_task) (rw (q, by_phase) refl)
]
