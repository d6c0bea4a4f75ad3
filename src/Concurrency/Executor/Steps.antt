-- ===== src/Concurrency/Executor/Steps.antt =====
-- The invariant of `ConcurrentExecutor::execute` (sdk/src/concurrency.rs) at each kind of step.
use durable_execution_rust_s.Prelude.{
  ℕ, ◌+◌, ◌≤◌, ◌<◌, ◌≡◌, ◌⊎◌, inl, inr, refl, ◌∙◌, subst, if◌then◌else◌, Bool, true, false, Option,
  none, some, is_some, arith, Bool-cases,
}
use durable_execution_rust_s.Prelude.Tally.{
  get_elem?, set, tally, tally-set, tally-lt-length, tally-add, weight-le-tally, All-set, All-get,
}
use durable_execution_rust_s.Errors.{Result, ok, err, DurableError}
use durable_execution_rust_s.Concurrency.Counters.{
  CompletionConfig, ExecutionCounters, should_complete, count_completed, count_success,
  count_failure, suspend_task,
}
use durable_execution_rust_s.Concurrency.Counters.Laws.{MoreExceeds, is_decided, decided_stays}
use durable_execution_rust_s.Concurrency.Batch.{
  BatchItemStatus, is_success, suspended_item, cancelled_item,
}
use durable_execution_rust_s.Concurrency.Executor.{
  Phase, Task, Exec, can_acquire, acquire, release, put, finish, by_phase, at_task, step,
}
use durable_execution_rust_s.Concurrency.Executor.Invariant.{
  done, success, failure, suspended, recording, active, stopped, Coherent, lock_count, Permitted,
  Inv, done_status,
}
use durable_execution_rust_s.Concurrency.Executor.Moves.{
  Moves, moved, Permitted-acquire, Permitted-release,
}

module _ {T F : Type 0} (exceeds : ℕ → ℕ → F → Bool) (more : MoreExceeds exceeds)
    (config : CompletionConfig F) (limit : Option ℕ) (total : ℕ) where
  -- A new state in which task `i`, which was `t`, is `t'`.
  kept :
      (e : Exec T) (i : ℕ) (t t' : Task T) (c' : ExecutionCounters) (permits' : Option ℕ)
      (locked' : Bool)
      → get_elem? e.tasks i ≡ some t
      → Inv exceeds config limit total e
      → Coherent t'
      → Moves t t' e.counters c'
      → recording t' + lock_count e.locked ≡ recording t + lock_count locked'
      → Permitted limit permits' (tally active (set e.tasks i t'))
      → (stopped t' ≡ stopped t) ⊎ (is_decided exceeds e.counters config ≡ true)
      → Inv exceeds config limit total
          (record { counters = c'; tasks = set e.tasks i t'; permits = permits'; locked = locked' })
  kept e i t t' c' permits' locked' g v k m l p d =
      let (counts, grows) = moved e.tasks i t t' e.counters c' g v.counted m in
      record {
        sized = m.same_total ∙ v.sized;
        counted = counts;
        coherent = All-set Coherent e.tasks i t' k v.coherent;
        locking = omega (arith, tally-set recording e.tasks i t t' g, v.locking);
        permitted = p;
        stopping = λ s. decided_stays exceeds more e.counters c' config grows (was_decided s d);
      }
    where
      was_decided :
          0 < tally stopped (set e.tasks i t')
          → (stopped t' ≡ stopped t) ⊎ (is_decided exceeds e.counters config ≡ true)
          → is_decided exceeds e.counters config ≡ true
      was_decided s (inl same) = v.stopping (omega (arith, tally-set stopped e.tasks i t t' g))
      was_decided s (inr dec) = dec

  abbrev Good : Option (Exec T) → Type 0
  Good none = Unit {0}
  Good (some e) = Inv exceeds config limit total e

  then_Good :
      (b : Bool) (e : Exec T)
      → (b ≡ true → Inv exceeds config limit total e)
      → Good (if b then some e else none)
  then_Good true e h = h refl
  then_Good false e h = tt

  else_Good :
      (b : Bool) (e : Exec T)
      → (b ≡ false → Inv exceeds config limit total e)
      → Good (if b then none else some e)
  else_Good true e h = tt
  else_Good false e h = h refl

  done-suspended-le : (a : Task T) → done a + suspended a ≤ 1
  done-suspended-le a = ground arith

  module _ (e : Exec T) (i : ℕ) (t : Task T) (g : get_elem? e.tasks i ≡ some t)
      (v : Inv exceeds config limit total e) where
    -- The permits when the task goes on holding, or not holding, one.
    same_permits :
        (t' : Task T)
        → active t' ≡ active t
        → Permitted limit e.permits (tally active (set e.tasks i t'))
    same_permits t' h =
        subst (Permitted limit e.permits) (omega (arith, tally-set active e.tasks i t t' g))
          v.permitted

    free_permit :
        (t' : Task T)
        → active t ≡ 1
        → active t' ≡ 0
        → Permitted limit (release e.permits) (tally active (set e.tasks i t'))
    free_permit t' h h' =
        Permitted-release limit e.permits (tally active e.tasks) (tally active (set e.tasks i t'))
          (omega (arith, tally-set active e.tasks i t t' g)) v.permitted

    fits : Coherent t
    fits = All-get Coherent e.tasks i t v.coherent g

    -- Steps that move no counter.
    quiet :
        (t' : Task T)
        → done t' ≡ done t
        → success t' ≡ success t
        → failure t' ≡ failure t
        → suspended t' ≡ suspended t
        → Moves t t' e.counters e.counters
    quiet t' d s f p = record {
      same_total = refl;
      done_moves = inl (d, refl);
      success_moves = inl (s, refl);
      failure_moves = inl (f, refl);
      suspended_moves = inl (p, refl);
    }

    queued_Good :
        t.phase ≡ Phase.queued
        → (r : Result T) → Good (by_phase exceeds config Phase.queued e i t r)
    unfolding by_phase
    queued_Good ph r = then_Good (can_acquire e.permits) _ λ can.
        let t' : Task T = record t { phase = Phase.admitted } in
        let f = fits in
        kept e i t t' e.counters (acquire e.permits) e.locked g v (ground arith)
          (quiet t' refl (ground arith) (ground arith) refl) (ground arith)
          (subst (Permitted limit (acquire e.permits))
            (ground (arith, tally-set active e.tasks i t t' g))
            (Permitted-acquire limit e.permits (tally active e.tasks) can v.permitted))
          (inl (ground arith))

    -- A task that is still to run is neither completed nor suspended, so that only the minimum or
    -- the tolerance can have decided the batch.
    decided_before :
        t.item.status ≡ BatchItemStatus.pending
        → is_some (should_complete exceeds e.counters config) ≡ true
        → is_decided exceeds e.counters config ≡ true
    unfolding should_complete
    decided_before p h =
        let pending =
          tally-lt-length (λ (a : Task T). done a + suspended a) e.tasks i t done-suspended-le g
            (ground arith) in
        let sum = tally-add done suspended e.tasks in
        let k = v.counted in
        let open_still : e.counters.completed_count + e.counters.suspended_count
            < e.counters.total_tasks =
          omega arith in
        ground arith

    admitted_Good :
        t.phase ≡ Phase.admitted
        → (r : Result T) → Good (by_phase exceeds config Phase.admitted e i t r)
    unfolding by_phase put
    admitted_Good ph r = elim (Bool-cases (is_some (should_complete exceeds e.counters config))) [
      | inl stop ↦
          let f = fits in
          let t' : Task T = record t { phase = Phase.cancelling } in
          rw stop (
            kept e i t t' e.counters e.permits e.locked g v (ground arith)
              (quiet t' refl (ground arith) (ground arith) refl) (ground arith)
              (same_permits t' (ground arith)) (inr (decided_before (ground arith) stop)))
      | inr go ↦
          let f = fits in
          let t' : Task T = record t { phase = Phase.running } in
          rw go (
            kept e i t t' e.counters e.permits e.locked g v (ground arith)
              (quiet t' refl (ground arith) (ground arith) refl) (ground arith)
              (same_permits t' (ground arith)) (inl (ground arith)))
    ]

    cancelling_Good :
        t.phase ≡ Phase.cancelling
        → (r : Result T) → Good (by_phase exceeds config Phase.cancelling e i t r)
    unfolding by_phase
    cancelling_Good ph r = else_Good e.locked _ λ free.
        let t' : Task T = record { phase = Phase.finished; item = cancelled_item t.item.index } in
        let f = fits in
        kept e i t t' e.counters (release e.permits) e.locked g v (ground arith)
          (quiet t' (ground arith) (ground arith) (ground arith) (ground arith)) (ground arith)
          (free_permit t' (ground arith) refl) (inl (ground arith))

    running_Good :
        t.phase ≡ Phase.running
        → (r : Result T) → Good (by_phase exceeds config Phase.running e i t r)
    unfolding by_phase put
    running_Good ph r =
        let t' : Task T = record t { phase = Phase.returned r } in
        let f = fits in
        kept e i t t' e.counters e.permits e.locked g v (ground arith)
          (quiet t' refl (ground arith) (ground arith) refl) (ground arith)
          (same_permits t' (ground arith)) (inl (ground arith))

    recording-Good :
        t.phase ≡ Phase.recording
        → (r : Result T) → Good (by_phase exceeds config Phase.recording e i t r)
    unfolding by_phase finish count_success count_failure is_success
    recording-Good ph r =
        let t' : Task T = record t { phase = Phase.finished } in
        let f = fits in
        let held : lock_count e.locked ≡ 1 =
          ground (arith, v.locking, weight-le-tally recording e.tasks i t g) in
        kept e i t t' _ (release e.permits) false g v (ground arith) (ground arith) (ground arith)
          (free_permit t' (ground arith) refl) (inl (ground arith))

    completed_Inv :
        (t' : Task T)
        → e.locked ≡ false
        → t.item.status ≡ BatchItemStatus.pending
        → t'.phase ≡ Phase.recording
        → done_status t'.item.status ≡ 1
        → active t ≡ 1
        → recording t ≡ 0
        → stopped t ≡ 0
        → Inv exceeds config limit total (record e {
          tasks = set e.tasks i t';
          counters = count_completed e.counters;
          locked = true;
        })
    unfolding count_completed
    completed_Inv t' free p ph d act rec st =
        kept e i t t' (count_completed e.counters) e.permits true g v (ground arith) (ground arith)
          (ground arith) (same_permits t' (ground arith)) (inl (ground arith))

    returned_Good :
        (x r : Result T)
        → t.phase ≡ Phase.returned x
        → Good (by_phase exceeds config (Phase.returned x) e i t r)
    unfolding by_phase
    returned_Good (ok a) r ph = else_Good e.locked _ λ free.
        let f = fits in
        completed_Inv _ free (ground arith) refl refl (ground arith) (ground arith) (ground arith)
    returned_Good (err (DurableError.suspend at)) r ph = else_Good e.locked _ λ free.
        let f = fits in
        let t' : Task T = record { phase = Phase.finished; item = suspended_item t.item.index } in
        unfold suspend_task in
        kept e i t t' (suspend_task e.counters) (release e.permits) e.locked g v (ground arith)
          (ground arith) (ground arith) (free_permit t' (ground arith) refl) (inl (ground arith))
    returned_Good (err x) r ph = else_Good e.locked _ λ free.
        let f = fits in
        completed_Inv _ free (ground arith) refl refl (ground arith) (ground arith) (ground arith)

    phase_Good :
        (p : Phase T) (r : Result T) → t.phase ≡ p → Good (by_phase exceeds config p e i t r)
    phase_Good Phase.queued r h = queued_Good h r
    phase_Good Phase.admitted r h = admitted_Good h r
    phase_Good Phase.cancelling r h = cancelling_Good h r
    phase_Good Phase.running r h = running_Good h r
    phase_Good (Phase.returned x) r h = returned_Good x r h
    phase_Good Phase.recording r h = recording-Good h r
    phase_Good Phase.finished r h = unfold by_phase in tt

  task_Good :
      (o : Option (Task T)) (e : Exec T) (i : ℕ) (r : Result T)
      → get_elem? e.tasks i ≡ o
      → Inv exceeds config limit total e
      → Good (at_task exceeds config o e i r)
  unfolding at_task
  task_Good none e i r g v = tt
  task_Good (some t) e i r g v = phase_Good e i t g v t.phase r refl

  Good-some :
      (o : Option (Exec T)) (e : Exec T) → o ≡ some e → Good o → Inv exceeds config limit total e
  Good-some o e h k = subst Good h k

  pub step-Inv :
      (e e' : Exec T) (i : ℕ) (r : Result T)
      → step exceeds config e i r ≡ some e'
      → Inv exceeds config limit total e
      → Inv exceeds config limit total e'
  unfolding step
  step-Inv e e' i r h v = Good-some _ e' h (task_Good (get_elem? e.tasks i) e i r refl v)
