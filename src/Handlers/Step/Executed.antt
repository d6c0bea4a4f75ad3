-- ===== src/Handlers/Step/Executed.antt =====
-- The execution of a step by `step_handler` (sdk/src/handlers/step.rs): its checkpoints, the context
-- of the function, and the answer.
use durable_execution_rust_s.Prelude.{
  String, ◌≡◌, refl, ◌∙◌, ◌⊎◌, inl, inr, Bool, true, false, Option, none, some, and_then, unwrap_or,
  arith,
}
use durable_execution_rust_s.Prelude.Dict.{lookup}
use durable_execution_rust_s.Errors.{Result, ok, err, new_error_object}
use durable_execution_rust_s.Operation.Kinds.{OperationType, OperationStatus, status_eq}
use durable_execution_rust_s.Operation.Record.{Operation, get_attempt, get_retry_payload}
use durable_execution_rust_s.Client.{Client, Sender}
use durable_execution_rust_s.CheckpointedResult.{CheckpointedResult}
use durable_execution_rust_s.CheckpointedResult
use durable_execution_rust_s.State.Model.{ExecutionState}
use durable_execution_rust_s.State.Checkpoint.{create_checkpoint}
use durable_execution_rust_s.Serdes.{JsonSerDes}
use durable_execution_rust_s.Config.Retry.{StepSemantics}
use durable_execution_rust_s.Handlers.{OperationIdentifier}
use durable_execution_rust_s.Handlers.Step.{
  StepContext, StepConfig, step_context, is_at_most_once, checkpoint_start, checkpoint_result,
  run_step, step_handler, create_start_update, create_succeed_update, create_fail_update,
}
use durable_execution_rust_s.Handlers.Step.Failures.{user_code_error, unsettled_runs}

-- Nothing is stored of the step, or it has started, or it is ready to be tried again.
abbrev pub Open : Option Operation → Type 0
Open o =
    (o ≡ none)
    ⊎ ((op : Operation) × (o ≡ some op)
        × (op.operation_type ≡ OperationType.step)
        × ((op.status ≡ OperationStatus.started) ⊎ (op.status ≡ OperationStatus.ready)))

-- The context that the stored attempt and payload make.
abbrev pub context_of : OperationIdentifier → String → Option Operation → StepContext
context_of id name o = record {
  operation_id = id.operation_id;
  parent_id = id.parent_id;
  name = id.name;
  durable_execution_arn = name;
  attempt = unwrap_or (and_then o λ op. and_then op.step_details λ d. d.attempt) 0;
  retry_payload = and_then o λ op. and_then op.step_details λ d. d.payload;
}

context_is :
    (id : OperationIdentifier) (name : String) (o : Option Operation)
    → Open o
    → step_context id name (record { operation = o }) ≡ context_of id name o
unfolding step_context CheckpointedResult.attempt CheckpointedResult.retry_payload get_attempt
    get_retry_payload
context_is id name o (inl missing) = rw missing refl
context_is id name o (inr (op, here, kind, begun)) = rw here (rw kind refl)

module _ {T S : Type 0} (serdes : JsonSerDes T) (client : Client S) (send : Sender S)
    (id : OperationIdentifier) where
  -- The step is started: with an accepted START in the at-most-once mode, unless it is ready, and
  -- without a checkpoint otherwise.
  abbrev pub Starts :
      StepSemantics → Option Operation → ExecutionState → S → ExecutionState → S → Type 0
  Starts semantics o s w t x =
      ((semantics ≡ StepSemantics.at_most_once_per_retry)
        × (CheckpointedResult.is_ready (record { operation = o }) ≡ false)
        × (create_checkpoint client send (create_start_update id) true s w ≡ (ok tt, t, x)))
      ⊎ ((semantics ≡ StepSemantics.at_least_once_per_retry) × (t ≡ s) × (x ≡ w))
      ⊎ (((op : Operation) × (o ≡ some op) × (op.status ≡ OperationStatus.ready))
          × (t ≡ s)
          × (x ≡ w))

  -- What the function returned is stored by an accepted checkpoint and is the answer.
  abbrev pub Ends : T ⊎ String → ExecutionState → S → Result T → ExecutionState → S → Type 0
  Ends r t x answer t' x' =
      ((v : T) × (text : String) × (r ≡ inl v)
        × (serdes.serialize v ≡ inl text)
        × (create_checkpoint client send (create_succeed_update id (some text)) true t x
            ≡ (ok tt, t', x'))
        × (answer ≡ ok v))
      ⊎ ((e : String) × (r ≡ inr e)
          × (create_checkpoint client send
                (create_fail_update id (new_error_object "UserCodeError" e)) true t x
              ≡ (ok tt, t', x'))
          × (answer ≡ err (user_code_error e)))

  starts :
      (semantics : StepSemantics) (o : Option Operation) (s t : ExecutionState) (w x : S)
      → Starts semantics o s w t x
      → checkpoint_start serdes client send semantics
          (CheckpointedResult.is_ready (record { operation = o }))
          id
          s
          w
        ≡ (ok tt, t, x)
  unfolding checkpoint_start is_at_most_once CheckpointedResult.is_ready status_eq
  starts semantics o s t w x (inl (mode, waiting, accepted)) = rw (mode, waiting, accepted) refl
  starts semantics o s t w x (inr (inl (mode, same, world))) = rw (mode, same, world) refl
  starts semantics o s t w x (inr (inr ((op, here, ready), same, world))) = ground arith

  ends :
      (r : T ⊎ String) (t t' : ExecutionState) (x x' : S) (answer : Result T)
      → Ends r t x answer t' x'
      → checkpoint_result serdes client send id r t x ≡ (answer, t', x')
  unfolding checkpoint_result
  ends r t t' x x' answer (inl (v, text, is, written, accepted, given)) =
      rw (is, given) (rw (written, accepted) refl)
  ends r t t' x x' answer (inr (e, is, accepted, given)) = rw (is, given) (rw accepted refl)

  module _ {R : Type 0} (is_match : R → String → Bool)
      (func : StepContext → S → (T ⊎ String) × S) where
    -- A step that is not stored, and a stored step that has started or is ready, is executed, in
    -- both modes: a step of the at-most-once mode that was interrupted after its START checkpoint
    -- is executed again. Once its START, where it is due, is accepted, the function is called with
    -- the attempt and the payload that are stored, and once what it returns is accepted, the step
    -- answers its value, or a user code error with the text of its failure.
    pub unsettled_step_runs :
        (config : StepConfig R) (o : Option Operation) (s t t' : ExecutionState) (w x x₁ x' : S)
        (r : T ⊎ String) (answer : Result T)
        → lookup id.operation_id s.operations ≡ o
        → Open o
        → Starts config.step_semantics o s w t x
        → func (context_of id t.durable_execution_arn o) x ≡ (r, x₁)
        → Ends r t x₁ answer t' x'
        → step_handler serdes client send is_match func id config s w ≡ (answer, t', x')
    unfolding run_step
    unsettled_step_runs config o s t t' w x x₁ x' r answer here free start call end =
        unsettled_runs client send serdes is_match func config id s w o here free
        ∙ rw
            (
              starts config.step_semantics o s t w x start,
              context_is id t.durable_execution_arn o free,
              call,
              ends r t t' x₁ x' answer end,
            )
            refl
