-- ===== src/Concurrency/Executor/Moves.antt =====
-- How the counters and the free permits of `ConcurrentExecutor::execute` (sdk/src/concurrency.rs)
-- follow a change of one task.
use durable_execution_rust_s.Prelude.{
  ℕ, ◌+◌, ◌≤◌, ◌<◌, ◌≡◌, ◌⊎◌, inl, inr, true, Option, none, some, List, length, arith,
}
use durable_execution_rust_s.Prelude.Tally.{
  get_elem?, set, tally, length-set, tally-set, tally-le-length,
}
use durable_execution_rust_s.Concurrency.Counters.{ExecutionCounters, usize_mod, fetch_inc}
use durable_execution_rust_s.Concurrency.Counters.Laws.{Grows}
use durable_execution_rust_s.Concurrency.Executor.{Task, can_acquire, acquire, release}
use durable_execution_rust_s.Concurrency.Executor.Invariant.{
  done, success, failure, suspended, Permitted, Counted,
}

module _ {T : Type 0} where
  -- How a counter follows a weight when task `t` becomes `t'`.
  abbrev pub Follows : (Task T → ℕ) → Task T → Task T → ℕ → ℕ → Type 0
  Follows w t t' n n' = ((w t' ≡ w t) × (n' ≡ n)) ⊎ ((w t ≡ 0) × (w t' ≡ 1) × (n' ≡ fetch_inc n))

  pub follow :
      (w : Task T → ℕ) (ts : List (Task T)) (i : ℕ) (t t' : Task T) {n n' : ℕ}
      → get_elem? ts i ≡ some t
      → ((a : Task T) → w a ≤ 1)
      → length ts < usize_mod
      → n ≡ tally w ts
      → Follows w t t' n n'
      → (n' ≡ tally w (set ts i t')) × (n ≤ n')
  follow w ts i t t' g le small e (inl (same, keep)) =
      (omega (arith, tally-set w ts i t t' g), omega arith)
  follow w ts i t t' g le small e (inr (z, o, inc)) =
      let eq = tally-set w ts i t t' g in
      let bound = tally-le-length w (set ts i t') le in
      let len = length-set ts i t' in (omega arith, omega arith)

  pub done-le : (t : Task T) → done t ≤ 1
  done-le t = ground arith

  pub success-le : (t : Task T) → success t ≤ 1
  success-le t = ground arith

  pub failure-le : (t : Task T) → failure t ≤ 1
  failure-le t = ground arith

  pub suspended-le : (t : Task T) → suspended t ≤ 1
  suspended-le t = ground arith

  -- How all counters follow.
  pub record Moves (t t' : Task T) (c c' : ExecutionCounters) : Type 0 where
    pub same_total : c'.total_tasks ≡ c.total_tasks
    pub done_moves : Follows done t t' c.completed_count c'.completed_count
    pub success_moves : Follows success t t' c.success_count c'.success_count
    pub failure_moves : Follows failure t t' c.failure_count c'.failure_count
    pub suspended_moves : Follows suspended t t' c.suspended_count c'.suspended_count

  pub moved :
      (ts : List (Task T)) (i : ℕ) (t t' : Task T) (c c' : ExecutionCounters)
      → get_elem? ts i ≡ some t
      → Counted c ts
      → Moves t t' c c'
      → Counted c' (set ts i t') × Grows c c'
  moved ts i t t' c c' g k m =
      let (d, dl) = follow done ts i t t' g done-le k.small k.completed m.done_moves in
      let (s, sl) = follow success ts i t t' g success-le k.small k.succeeded m.success_moves in
      let (f, fl) = follow failure ts i t t' g failure-le k.small k.failed m.failure_moves in
      let (p, pl) =
        follow suspended ts i t t' g suspended-le k.small k.suspends m.suspended_moves in
      let len = length-set ts i t' in
      (
        record {
          total = omega (arith, m.same_total, k.total);
          small = omega (arith, k.small);
          completed = d;
          succeeded = s;
          failed = f;
          suspends = p;
        },
        record {
          same_total = m.same_total;
          more_success = sl;
          more_failure = fl;
          more_done = omega arith;
        },
      )

pub Permitted-acquire :
    (limit permits : Option ℕ) (used : ℕ)
    → can_acquire permits ≡ true
    → Permitted limit permits used
    → Permitted limit (acquire permits) (used + 1)
unfolding can_acquire acquire
Permitted-acquire none none used h p = tt
Permitted-acquire none (some q) used h p = p
Permitted-acquire (some n) none used h p = p
Permitted-acquire (some n) (some q) used h p = ground arith

pub Permitted-release :
    (limit permits : Option ℕ) (used used' : ℕ)
    → used ≡ used' + 1
    → Permitted limit permits used
    → Permitted limit (release permits) used'
unfolding release
Permitted-release none none used used' h p = tt
Permitted-release none (some q) used used' h p = p
Permitted-release (some n) none used used' h p = p
Permitted-release (some n) (some q) used used' h p = omega arith
