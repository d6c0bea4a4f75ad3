-- ===== src/Concurrency/Executor/Rounds.antt =====
-- `ConcurrentExecutor::execute` (sdk/src/concurrency.rs) under a scheduler that picks every task again
-- and again.
use durable_execution_rust_s.Prelude.{
  ℕ, zero, suc, ◌+◌, ◌*◌, ◌≤◌, ◌<◌, ◌==◌, ◌≡◌, ◌≢◌, inl, inr, refl, Bool, true, Option, none, some,
  unwrap_or, Option-cases, List, [], ◌∷◌, length, All, any, arith,
}
use native.Mathlib.Decide.{dec_lt}
use durable_execution_rust_s.Prelude.Tally.{get_elem?, tally}
use durable_execution_rust_s.Errors.{Result}
use durable_execution_rust_s.Concurrency.Counters.{CompletionConfig, usize_mod}
use durable_execution_rust_s.Concurrency.Counters.Laws.{MoreExceeds}
use durable_execution_rust_s.Concurrency.Executor.{Phase, Task, Exec, at_task, step, start}
use durable_execution_rust_s.Concurrency.Executor.Invariant.{Inv}
use durable_execution_rust_s.Concurrency.Executor.Progress.{
  Reach, next, task_rank, steps_left, AllFinished, step_falls,
}
use durable_execution_rust_s.Concurrency.Executor.Runs.{Reach-Inv, runs_end, no_deadlock}

-- Every task is picked at least once.
abbrev pub Fair : ℕ → List ℕ → Type 0
Fair total picks = (i : ℕ) → i < total → any (λ j. j == i) picks ≡ true

none_left :
    {T : Type 0} (ts : List (Task T))
    → tally task_rank ts ≡ 0
    → All (λ (t : Task T). t.phase ≡ Phase.finished) ts
none_left [] h = tt
none_left (t ∷ ts) h = (ground arith, none_left ts (omega arith))

within : {A : Type 0} (xs : List A) (i : ℕ) (x : A) → get_elem? xs i ≡ some x → i < length xs
within [] i x h = absurd (ground arith)
within (y ∷ xs) zero x h = omega arith
within (y ∷ xs) (suc i) x h = omega (arith, within xs i x h)

module _ {T F : Type 0} (exceeds : ℕ → ℕ → F → Bool) (config : CompletionConfig F)
    (results : ℕ → Result T) where
  -- The picked tasks make a step each, if they can; `results` is what the futures return.
  abbrev pub run_picks : List ℕ → Exec T → Exec T
  run_picks [] e = e
  run_picks (i ∷ picks) e = run_picks picks (unwrap_or (step exceeds config e i (results i)) e)

  abbrev pub run_rounds : List (List ℕ) → Exec T → Exec T
  run_rounds [] e = e
  run_rounds (picks ∷ rounds) e = run_rounds rounds (run_picks picks e)

  module _ (more : MoreExceeds exceeds) (limit : Option ℕ) (total : ℕ)
      (small : total < usize_mod) where
    Reached : Exec T → Type 0
    Reached e = (n : ℕ) × Reach exceeds config (start total limit) n e

    pick_kept :
        (o : Option (Exec T)) (e : Exec T) (i : ℕ)
        → step exceeds config e i (results i) ≡ o
        → Reached e
        → Reached (unwrap_or o e) × (steps_left (unwrap_or o e) ≤ steps_left e)
    unfolding Reached
    pick_kept none e i h reached = (reached, omega arith)
    pick_kept (some e') e i h (n, reach) =
        ((suc n, next i (results i) reach h), omega (arith, step_falls exceeds config e e' i _ h))

    picks_kept :
        (picks : List ℕ) (e : Exec T)
        → Reached e
        → Reached (run_picks picks e) × (steps_left (run_picks picks e) ≤ steps_left e)
    picks_kept [] e reached = (reached, omega arith)
    picks_kept (i ∷ picks) e reached =
        let (after, le) = pick_kept (step exceeds config e i (results i)) e i refl reached in
        let (end, le') =
          picks_kept picks (unwrap_or (step exceeds config e i (results i)) e) after in
        (end, omega arith)

    -- A round in which some task can step takes a step.
    picks_fall :
        (picks : List ℕ) (e e' : Exec T) (i : ℕ)
        → Reached e
        → step exceeds config e i (results i) ≡ some e'
        → any (λ j. j == i) picks ≡ true
        → steps_left (run_picks picks e) < steps_left e
    unfolding Reached
    picks_fall [] e e' i reached h k = absurd cc
    picks_fall (j ∷ picks) e e' i (n, reach) h k =
        elim (Option-cases (step exceeds config e j (results j))) [
          | inr (e₁, moves) ↦
              let (end, le) = picks_kept picks e₁ (suc n, next j (results j) reach moves) in
              rw (moves, run_picks) (omega (arith, step_falls exceeds config e e₁ j _ moves))
          | inl waits ↦
              let later : any (λ j. j == i) picks ≡ true = ground arith in
              rw (waits, run_picks) (picks_fall picks e e' i (n, reach) h later)
        ]

    in_range :
        (e e' : Exec T) (i : ℕ) (r : Result T)
        → Inv exceeds config limit total e
        → step exceeds config e i r ≡ some e'
        → i < total
    unfolding step at_task
    in_range e e' i r v h = elim (Option-cases (get_elem? e.tasks i)) [
      | inl missing ↦ absurd (ground arith)
      | inr (t, found) ↦ omega (arith, within e.tasks i t found, v.sized, v.counted.total)
    ]

    rounds_end :
        (rounds : List (List ℕ)) (e : Exec T)
        → limit ≢ some 0
        → All (Fair total) rounds
        → Reached e
        → steps_left e ≤ length rounds
        → steps_left (run_rounds rounds e) ≡ 0
    unfolding Reached
    rounds_end [] e permits fair reached h = omega arith
    rounds_end (picks ∷ rounds) e permits (all, fair) (n, reach) h =
        let (after, le) = picks_kept picks e (n, reach) in
        rounds_end rounds (run_picks picks e) permits fair after (elim (dec_lt 0 (steps_left e)) [
          | no idle ↦ omega arith
          | yes left ↦
              let (i, moves) =
                no_deadlock exceeds more config limit total small reach permits left in
              let (e', h') = moves (results i) in
              let lt =
                picks_fall picks e e' i (n, reach) h'
                  (all i (
                    in_range e e' i _ (Reach-Inv exceeds more config limit total small reach)
                      h')) in
              omega arith
        ])

    -- For fewer than 2 ^ 64 tasks, a percentage test that more failures never undo and a
    -- concurrency limit other than 0: from every state of a run, a scheduler that picks every task
    -- in each of its rounds finishes all tasks, whatever the futures return, when the steps made
    -- and the rounds are at least five for each task.
    pub rounds_finish :
        {n : ℕ} {e : Exec T} (rounds : List (List ℕ))
        → Reach exceeds config (start total limit) n e
        → limit ≢ some 0
        → All (Fair total) rounds
        → total * 5 ≤ n + length rounds
        → AllFinished (run_rounds rounds e)
    unfolding Reached
    rounds_finish {n} {e} rounds reach permits fair enough = none_left (run_rounds rounds e).tasks (
        rounds_end rounds e permits fair (n, reach)
          (omega (arith, runs_end exceeds more config limit total small reach)))
