-- ===== src/Concurrency/Executor/Progress.antt =====
-- Reachable states of `ConcurrentExecutor::execute` (sdk/src/concurrency.rs), and the steps left.
use durable_execution_rust_s.Prelude.{
  ℕ, suc, ◌+◌, ◌≤◌, ◌<◌, ◌≡◌, refl, subst, if◌then◌else◌, Bool, true, false, Option, none, some,
  All, arith,
}
use durable_execution_rust_s.Prelude.Tally.{get_elem?, set, tally, tally-set}
use durable_execution_rust_s.Errors.{Result, ok, err, DurableError}
use durable_execution_rust_s.Concurrency.Counters.{CompletionConfig}
use durable_execution_rust_s.Concurrency.Executor.{
  Phase, Task, Exec, can_acquire, put, record_result, finish, by_phase, at_task, step,
}

module _ {T : Type 0} where
  -- How many steps a task may still make.
  abbrev pub rank : Phase T → ℕ
  rank Phase.queued = 5
  rank Phase.admitted = 4
  rank Phase.running = 3
  rank (Phase.returned r) = 2
  rank Phase.cancelling = 1
  rank Phase.recording = 1
  rank Phase.finished = 0

  abbrev pub task_rank : Task T → ℕ
  task_rank t = rank t.phase

  abbrev pub steps_left : Exec T → ℕ
  steps_left e = tally task_rank e.tasks

  abbrev pub AllFinished : Exec T → Type 0
  AllFinished e = All (λ (t : Task T). t.phase ≡ Phase.finished) e.tasks

module _ {T F : Type 0} (exceeds : ℕ → ℕ → F → Bool) (config : CompletionConfig F) where
  -- The states that are reached from `from`, with the number of steps.
  pub data Reach (from : Exec T) : ℕ → Exec T → Type 0 where
    here : Reach from 0 from
    next :
        {n : ℕ} {e e' : Exec T} (i : ℕ) (r : Result T)
        → Reach from n e
        → step exceeds config e i r ≡ some e'
        → Reach from (suc n) e'

  Falls : ℕ → Option (Exec T) → Type 0
  Falls n none = Unit
  Falls n (some e) = steps_left e < n

  if_Falls :
      (n : ℕ) (b : Bool) (o o' : Option (Exec T))
      → Falls n o
      → Falls n o'
      → Falls n (if b then o else o')
  if_Falls n true o o' h h' = h
  if_Falls n false o o' h h' = h'

  put_falls :
      (e : Exec T) (i : ℕ) (t t' : Task T)
      → get_elem? e.tasks i ≡ some t
      → task_rank t' < task_rank t
      → tally task_rank (set e.tasks i t') < steps_left e
  put_falls e i t t' g h = omega (arith, tally-set task_rank e.tasks i t t' g)

  phase-Falls :
      (e : Exec T) (i : ℕ) (t : Task T) (p : Phase T) (r : Result T)
      → get_elem? e.tasks i ≡ some t
      → t.phase ≡ p
      → Falls (steps_left e) (by_phase exceeds config p e i t r)
  unfolding Falls by_phase put record_result finish
  phase-Falls e i t Phase.queued r g h =
      if_Falls (steps_left e) (can_acquire e.permits) _ _ (put_falls e i t _ g (ground arith)) tt
  phase-Falls e i t Phase.admitted r g h = put_falls e i t _ g (ground arith)
  phase-Falls e i t Phase.cancelling r g h =
      if_Falls (steps_left e) e.locked _ _ tt (put_falls e i t _ g (ground arith))
  phase-Falls e i t Phase.running r g h = put_falls e i t _ g (ground arith)
  phase-Falls e i t (Phase.returned (ok v)) r g h =
      if_Falls (steps_left e) e.locked _ _ tt (put_falls e i t _ g (ground arith))
  phase-Falls e i t (Phase.returned (err (DurableError.suspend at))) r g h =
      if_Falls (steps_left e) e.locked _ _ tt (put_falls e i t _ g (ground arith))
  phase-Falls e i t (Phase.returned (err x)) r g h =
      if_Falls (steps_left e) e.locked _ _ tt (put_falls e i t _ g (ground arith))
  phase-Falls e i t Phase.recording r g h = put_falls e i t _ g (ground arith)
  phase-Falls e i t Phase.finished r g h = tt

  task-Falls :
      (o : Option (Task T)) (e : Exec T) (i : ℕ) (r : Result T)
      → get_elem? e.tasks i ≡ o
      → Falls (steps_left e) (at_task exceeds config o e i r)
  unfolding at_task Falls
  task-Falls none e i r g = tt
  task-Falls (some t) e i r g = phase-Falls e i t t.phase r g refl

  pub step_falls :
      (e e' : Exec T) (i : ℕ) (r : Result T)
      → step exceeds config e i r ≡ some e'
      → steps_left e' < steps_left e
  unfolding step Falls
  step_falls e e' i r h =
      subst (Falls (steps_left e)) h (task-Falls (get_elem? e.tasks i) e i r refl)

  -- No run is longer than the steps that its first state has left.
  pub run_bounded : {from e : Exec T} {n : ℕ} → Reach from n e → n + steps_left e ≤ steps_left from
  run_bounded here = omega arith
  run_bounded (next {n} {e} {e'} i r reach h) =
      omega (arith, run_bounded reach, step_falls e e' i r h)
