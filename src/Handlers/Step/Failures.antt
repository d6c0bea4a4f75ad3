-- ===== src/Handlers/Step/Failures.antt =====
-- Failing steps of sdk/src/handlers/step.rs: `execute_with_retry` with its error filter, and the replay
-- of a failure.
use durable_execution_rust_s.Prelude.{
  String, ◌≡◌, refl, sym, ap, ◌∙◌, ◌⊎◌, inl, inr, Bool, true, Option, none, some, arith, fun_ext,
}
use durable_execution_rust_s.Prelude.Dict.{lookup}
use durable_execution_rust_s.Errors.{DurableError, ok, err, new_error_object, user_code_from}
use durable_execution_rust_s.Operation.Kinds.{
  OperationType, OperationStatus, is_terminal, type_eq, status_eq,
}
use durable_execution_rust_s.Operation.Record.{Operation}
use durable_execution_rust_s.Operation.Update
use durable_execution_rust_s.Client.{Client, Sender}
use durable_execution_rust_s.CheckpointedResult.{CheckpointedResult}
use durable_execution_rust_s.CheckpointedResult
use durable_execution_rust_s.State.Model.{ExecutionState, get_checkpoint_result}
use durable_execution_rust_s.State.Cache.Entries.{Failed, stores-Failed}
use durable_execution_rust_s.State.Checkpoint.{create_checkpoint}
use durable_execution_rust_s.State.Checkpoint.Caching.{Quiet, checkpoint-Stores}
use durable_execution_rust_s.State.Tracking.{track_replay}
use durable_execution_rust_s.Serdes.{JsonSerDes}
use durable_execution_rust_s.Config.Retry.{StepSemantics, RetryableErrorFilter}
use durable_execution_rust_s.Handlers.{OperationIdentifier}
use durable_execution_rust_s.Handlers.Updates.{apply_to-Is}
use durable_execution_rust_s.Handlers.Step.{
  StepContext, StepConfig, failed_step, filtered, execute_with_retry, step_context, handle_replay,
  check_type, by_status, checkpoint_start, is_at_most_once, checkpoint_result, execute_step,
  run_step, replay_or, or_execute, step_handler, create_fail_update,
}
use durable_execution_rust_s.Handlers.Step.Settled.{recorded, Settled}
use durable_execution_rust_s.Handlers.Step.Replays.{OpenStep, open_missing}
use durable_execution_rust_s.Handlers.Step.Laws.{settled_step_is_not_run}

module _ {R : Type 0} (is_match : R → String → Bool) {T S : Type 0}
    (func : StepContext → S → (T ⊎ String) × S) where
  filtered_same : (f : Option (RetryableErrorFilter R)) (r : T ⊎ String) → filtered is_match f r ≡ r
  unfolding filtered
  filtered_same none r = refl
  filtered_same (some f) (inl v) = refl
  filtered_same (some f) (inr e) = ground arith

  -- The function is called once.
  called_once :
      (config : StepConfig R) → (λ context. execute_with_retry is_match func context config) ≡ func
  unfolding execute_with_retry
  called_once config = fun_ext λ context.
      fun_ext λ w. rw (filtered_same config.retryable_error_filter (func context w).0) refl

-- The failure of a step as it is reported.
abbrev pub user_code_error : String → DurableError
user_code_error text = DurableError.user_code text "UserCodeError" none

module _ {S : Type 0} (client : Client S) (send : Sender S) {T : Type 0} (serdes : JsonSerDes T)
    {R : Type 0} (is_match : R → String → Bool) (func : StepContext → S → (T ⊎ String) × S) where
  -- The handler runs the function itself.
  handler_runs :
      (config : StepConfig R) (id : OperationIdentifier) (s : ExecutionState) (w : S)
      → step_handler serdes client send is_match func id config s w
        ≡ replay_or serdes client send id
            (λ c. run_step serdes client send func c id config.step_semantics)
            s
            w
  unfolding step_handler execute_step
  handler_runs config id s w =
      ap
        (λ run.
          replay_or serdes client send id
            (λ c. run_step serdes client send run c id config.step_semantics) s w)
        (called_once is_match func config)

  -- The error filter has no effect on a step: with any two filters the answer, the state and the
  -- world after are the same.
  pub filter_has_no_effect :
      (config : StepConfig R) (filter : Option (RetryableErrorFilter R)) (id : OperationIdentifier)
      (s : ExecutionState) (w : S)
      → step_handler serdes client send is_match func id config s w
        ≡ step_handler serdes client send is_match func id
            (record config { retryable_error_filter = filter })
            s
            w
  filter_has_no_effect config filter id s w =
      handler_runs config id s w
      ∙ sym (handler_runs (record config { retryable_error_filter = filter }) id s w)

  pub recorded_failure :
      (text : String) (id : OperationIdentifier) (s s' : ExecutionState) (w w' : S)
      → Quiet client
      → OpenStep id.operation_id s
      → create_checkpoint client send
          (create_fail_update id (new_error_object "UserCodeError" text))
          true
          s
          w
        ≡ (ok tt, s', w')
      → Settled serdes id.operation_id s' (err (user_code_error text))
  unfolding create_fail_update Update.fail recorded failed_step new_error_object user_code_from
      is_terminal
  recorded_failure text id s s' w w' quiet free accepted =
      let u = create_fail_update id (new_error_object "UserCodeError" text) in
      let (op, here, kind, (done, read)) =
        checkpoint-Stores client quiet send u true s s' w w' id.operation_id OperationType.step
          (Failed (some (new_error_object "UserCodeError" text))) accepted
          (stores-Failed u s
            (apply_to-Is id (
              Update.fail id.operation_id OperationType.step
                (new_error_object "UserCodeError" text)))
            (λ op e. (free op e).0)) in
      (op, here, kind, rw done refl, rw (done, read) refl)

  no_start :
      (semantics : StepSemantics) (id : OperationIdentifier) (ready : Bool) (s : ExecutionState)
      (w : S)
      → semantics ≡ StepSemantics.at_least_once_per_retry
      → checkpoint_start serdes client send semantics ready id s w ≡ (ok tt, s, w)
  unfolding checkpoint_start is_at_most_once
  no_start semantics id ready s w mode = rw mode refl

  first_failure :
      (config : StepConfig R) (id : OperationIdentifier) (s s' : ExecutionState) (w w₁ w' : S)
      (text : String)
      → config.step_semantics ≡ StepSemantics.at_least_once_per_retry
      → lookup id.operation_id s.operations ≡ none
      → func (step_context id s.durable_execution_arn CheckpointedResult.empty) w ≡ (inr text, w₁)
      → create_checkpoint client send
          (create_fail_update id (new_error_object "UserCodeError" text))
          true
          s
          w₁
        ≡ (ok tt, s', w')
      → step_handler serdes client send is_match func id config s w
        ≡ (err (user_code_error text), s', w')
  unfolding get_checkpoint_result handle_replay or_execute run_step replay_or checkpoint_result
      CheckpointedResult.empty
  first_failure config id s s' w w₁ w' text mode missing fails accepted =
      handler_runs config id s w ∙ rw (missing, no_start _ id _ s w mode, fails, accepted) refl

  -- A step that is not stored and fails in the at-least-once mode, whose failure the service takes
  -- without sending a new state, reports a user code error with the text of the failure, and every
  -- later run on the state it left reports the same error and calls neither the function nor the
  -- service.
  pub step_failure_replayed :
      (config : StepConfig R) (id : OperationIdentifier) (s s' : ExecutionState) (w w₁ w' : S)
      (text : String)
      → Quiet client
      → config.step_semantics ≡ StepSemantics.at_least_once_per_retry
      → lookup id.operation_id s.operations ≡ none
      → func (step_context id s.durable_execution_arn CheckpointedResult.empty) w ≡ (inr text, w₁)
      → create_checkpoint client send
          (create_fail_update id (new_error_object "UserCodeError" text))
          true
          s
          w₁
        ≡ (ok tt, s', w')
      → (step_handler serdes client send is_match func id config s w
          ≡ (err (user_code_error text), s', w'))
        × ((func' : StepContext → S → (T ⊎ String) × S) (config' : StepConfig R) (later : S)
            → step_handler serdes client send is_match func' id config' s' later
              ≡ (err (user_code_error text), track_replay s' id.operation_id, later))
  step_failure_replayed config id s s' w w₁ w' text quiet mode missing fails accepted = (
    first_failure config id s s' w w₁ w' text mode missing fails accepted,
    λ func' config' later.
        settled_step_is_not_run client send serdes is_match func' config' id s' later _ (
          recorded_failure text id s s' w₁ w' quiet (open_missing id.operation_id s missing)
            accepted),
  )

  pub unsettled_runs :
      (config : StepConfig R) (id : OperationIdentifier) (s : ExecutionState) (w : S)
      (o : Option Operation)
      → lookup id.operation_id s.operations ≡ o
      → (o ≡ none)
        ⊎ ((op : Operation) × (o ≡ some op)
            × (op.operation_type ≡ OperationType.step)
            × ((op.status ≡ OperationStatus.started) ⊎ (op.status ≡ OperationStatus.ready)))
      → step_handler serdes client send is_match func id config s w
        ≡ run_step serdes client send func (record { operation = o }) id config.step_semantics s w
  unfolding get_checkpoint_result replay_or handle_replay check_type by_status or_execute type_eq
      status_eq is_terminal
  unsettled_runs config id s w o e (inl missing) = handler_runs config id s w ∙ rw (e, missing) refl
  unsettled_runs config id s w o e (inr (op, here, kind, inl begun)) =
      handler_runs config id s w ∙ rw (e, here) (rw (kind, begun) refl)
  unsettled_runs config id s w o e (inr (op, here, kind, inr begun)) =
      handler_runs config id s w ∙ rw (e, here) (rw (kind, begun) refl)
