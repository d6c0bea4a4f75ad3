-- ===== src/Handlers/Step/Memo.antt =====
-- `step_handler` of sdk/src/handlers/step.rs as a memo cell: a run of the step is a step of the cell.
use durable_execution_rust_s.Prelude.{
  String, ◌≡◌, refl, sym, subst, ap, ◌∙◌, ◌⊎◌, inl, inr, Bool, true, false, Option, none, some,
  if◌then◌else◌,
}
use durable_execution_rust_s.Prelude.Dict.{lookup}
use durable_execution_rust_s.Errors.{DurableError, Result, ok, err}
use durable_execution_rust_s.Operation.Kinds.{
  OperationType, OperationStatus, type_eq, status_eq, is_terminal,
}
use durable_execution_rust_s.Operation.Record.{Operation, get_result}
use durable_execution_rust_s.Operation.Update.{OperationUpdate}
use durable_execution_rust_s.Operation.Update
use durable_execution_rust_s.Client.{Client, Sender}
use durable_execution_rust_s.CheckpointedResult.{CheckpointedResult}
use durable_execution_rust_s.State.Model.{ExecutionState, get_checkpoint_result}
use durable_execution_rust_s.State.Cache.Entries.{Started, stores-Started}
use durable_execution_rust_s.State.Checkpoint.{Run}
use durable_execution_rust_s.State.Checkpoint.Caching.{Quiet, checkpoint-Stores}
use durable_execution_rust_s.State.Tracking.{track_replay}
use durable_execution_rust_s.Serdes.{JsonSerDes, RoundTrip}
use durable_execution_rust_s.Config.Retry.{StepSemantics}
use durable_execution_rust_s.Handlers.{OperationIdentifier}
use durable_execution_rust_s.CheckpointedResult
use durable_execution_rust_s.Handlers.Updates.{apply_to-Is}
use durable_execution_rust_s.Handlers.Effects.{pure, continue, checkpoint}
use durable_execution_rust_s.State.Checkpoint.Laws.{create_checkpoint-Keeps}
use durable_execution_rust_s.Handlers.Step.{
  StepContext, StepConfig, step_context, checkpoint_result, checkpoint_start, run_step, replay_or,
  handle_replay, check_type, by_status, step_handler, create_start_update,
}
use durable_execution_rust_s.Handlers.Step.Laws.{settled_step_is_not_run}
use durable_execution_rust_s.Handlers.Step.Failures.{unsettled_runs}
use durable_execution_rust_s.Handlers.Step.Cell.{
  MemoStep, Unsettled, unsettled_cases, Holds, Steps, same_cache, result_Steps,
}

module _ {S : Type 0} (client : Client S) (quiet : Quiet client) (send : Sender S) {T : Type 0}
    (serdes : JsonSerDes T) (trip : RoundTrip serdes) (id : OperationIdentifier) where
  started_Unsettled :
      (b : Bool) (s t : ExecutionState) (w x : S)
      → (if b then checkpoint client send (create_start_update id) else pure tt) s w ≡ (ok tt, t, x)
      → Unsettled id.operation_id s
      → Unsettled id.operation_id t
  unfolding create_start_update Update.start is_terminal
  started_Unsettled true s t w x h open_step = λ op' e'.
      let (op, e, kind, (begun, no_result)) =
        checkpoint-Stores client quiet send (create_start_update id) true s t w x id.operation_id
          OperationType.step Started h
          (stores-Started (create_start_update id) s
            (apply_to-Is id (Update.start id.operation_id OperationType.step))) in
      let same : op ≡ op' = cc in
      subst
        (λ o.
          (o.operation_type ≡ OperationType.step)
          × (is_terminal o.status ≡ false)
          × (get_result o ≡ none))
        same (kind, rw begun refl, no_result)
  started_Unsettled false s t w x h open_step =
      same_cache id.operation_id s t (ap (λ r. r.1.operations) (sym h)) open_step

  refused_Unsettled :
      (b : Bool) (m : DurableError) (s t : ExecutionState) (w x : S)
      → (if b then checkpoint client send (create_start_update id) else pure tt) s w ≡ (err m, t, x)
      → Unsettled id.operation_id s
      → Unsettled id.operation_id t
  refused_Unsettled true m s t w x h open_step =
      same_cache id.operation_id s t
        (ap (λ r. r.1.operations) (sym h)
          ∙ (create_checkpoint-Keeps client send (create_start_update id) true s w).0.failed m
              (ap (λ r. r.0) h))
        open_step
  refused_Unsettled false m s t w x h open_step = absurd cc

  module _ (run : StepContext → S → (T ⊎ String) × S) (c : CheckpointedResult)
      (semantics : StepSemantics) where
    begun_Steps :
        (r : Run (Unit {0}) S) (s : ExecutionState) (w : S)
        → checkpoint_start serdes client send semantics (CheckpointedResult.is_ready c) id s w ≡ r
        → Unsettled id.operation_id s
        → Steps serdes id.operation_id none (
            continue r (λ done t x.
              let (result, x') = run (step_context id t.durable_execution_arn c) x in
              checkpoint_result serdes client send id result t x'))
    unfolding checkpoint_start
    begun_Steps (ok done, t, x) s w e open_step =
        result_Steps client quiet send serdes trip id _ t _
          (started_Unsettled _ s t w x e open_step)
    begun_Steps (err m, t, x) s w e open_step =
        (none, refused_Unsettled _ m s t w x e open_step, MemoStep.abort m)

    run_step_Steps :
        (s : ExecutionState) (w : S)
        → Unsettled id.operation_id s
        → Steps serdes id.operation_id none (run_step serdes client send run c id semantics s w)
    unfolding run_step
    run_step_Steps s w open_step = begun_Steps _ s w refl open_step

module _ {S : Type 0} (client : Client S) (quiet : Quiet client) (send : Sender S) {T : Type 0}
    (serdes : JsonSerDes T) (trip : RoundTrip serdes) {R : Type 0} (is_match : R → String → Bool)
    (func : StepContext → S → (T ⊎ String) × S) (id : OperationIdentifier)
    (config : StepConfig R) where
  waits :
      (op : Operation) (s : ExecutionState) (w : S)
      → lookup id.operation_id s.operations ≡ some op
      → op.operation_type ≡ OperationType.step
      → op.status ≡ OperationStatus.pending
      → step_handler serdes client send is_match func id config s w
        ≡ (err (DurableError.suspend none), s, w)
  unfolding step_handler replay_or get_checkpoint_result handle_replay check_type by_status type_eq
      status_eq is_terminal
  waits op s w e kind pending = rw e (rw (kind, pending) refl)

  unsettled_Steps :
      (o : Option Operation) (s : ExecutionState) (w : S)
      → lookup id.operation_id s.operations ≡ o
      → Unsettled id.operation_id s
      → Steps serdes id.operation_id none
          (step_handler serdes client send is_match func id config s w)
  unsettled_Steps none s w e open_step =
      subst (Steps serdes id.operation_id none)
        (sym (unsettled_runs client send serdes is_match func config id s w none e (inl refl)))
        (run_step_Steps client quiet send serdes trip id func (record { operation = none })
          config.step_semantics s w open_step)
  unsettled_Steps (some op) s w e open_step =
      let (kind, going, r) = open_step op e in
      elim (unsettled_cases op.status going) [
        | inl pending ↦
            subst (Steps serdes id.operation_id none) (sym (waits op s w e kind pending))
              (none, open_step, MemoStep.abort (DurableError.suspend none))
        | inr runs ↦
            subst (Steps serdes id.operation_id none)
              (sym (
                unsettled_runs client send serdes is_match func config id s w (some op) e
                  (inr (op, refl, kind, runs))))
              (run_step_Steps client quiet send serdes trip id func (record { operation = some op })
                config.step_semantics s w open_step)
      ]

  -- When the service sends no new state and what is serialized is read back, a step implements a
  -- memo cell. The cell of a step holds what was recorded of a stored step that is over; it is
  -- empty when nothing is stored, or a step without a result that is not over. A run on a full
  -- cell answers its content and leaves it; a run on an empty cell either fills it with its
  -- answer, a value or an error, or answers an error and leaves it empty. This is whatever the
  -- function, the configuration and the world are.
  pub step_refines_memo :
      (before : Option (Result T)) (s : ExecutionState) (w : S)
      → Holds serdes id.operation_id s before
      → Steps serdes id.operation_id before
          (step_handler serdes client send is_match func id config s w)
  unfolding track_replay
  step_refines_memo none s w holds = unsettled_Steps _ s w refl holds
  step_refines_memo (some r) s w holds =
      subst (Steps serdes id.operation_id (some r))
        (sym (settled_step_is_not_run client send serdes is_match func config id s w r holds))
        (some r, holds, MemoStep.recall r)
