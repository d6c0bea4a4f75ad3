-- ===== src/Handlers/Step/Cell.antt =====
-- The outcome of a step of sdk/src/handlers/step.rs as the content of a memo cell, and what the checkpoint of a
-- result makes of it.
use durable_execution_rust_s.Prelude.{
  String, ◌<>◌, ◌≡◌, refl, sym, subst, ap, ◌∙◌, ◌⊎◌, inl, inr, true, false, Option, none, some,
  arith,
}
use durable_execution_rust_s.Prelude.Dict.{lookup}
use durable_execution_rust_s.Errors.{DurableError, Result, ok, err}
use durable_execution_rust_s.Operation.Kinds.{OperationType, OperationStatus, is_terminal}
use durable_execution_rust_s.Operation.Record.{Operation, get_result}
use durable_execution_rust_s.Client.{Client, Sender}
use durable_execution_rust_s.State.Model.{ExecutionState}
use durable_execution_rust_s.State.Checkpoint.{Run, create_checkpoint}
use durable_execution_rust_s.State.Checkpoint.Caching.{Quiet}
use durable_execution_rust_s.Serdes.{JsonSerDes, RoundTrip}
use durable_execution_rust_s.Handlers.{OperationIdentifier}
use durable_execution_rust_s.Handlers.Effects.{pure, fail, continue}
use durable_execution_rust_s.Errors.{new_error_object}
use durable_execution_rust_s.State.Checkpoint.Laws.{create_checkpoint-Keeps}
use durable_execution_rust_s.Handlers.Step.{
  checkpoint_result, create_succeed_update, create_fail_update,
}
use durable_execution_rust_s.Handlers.Step.Settled.{Settled}
use durable_execution_rust_s.Handlers.Step.Replays.{OpenStep, finish_Settled}
use durable_execution_rust_s.Handlers.Step.Failures.{user_code_error, recorded_failure}

-- A memo cell: what it held, what it holds then, and the answer.
pub data MemoStep {T : Type 0} : Option (Result T) → Option (Result T) → Result T → Type 0 where
  recall : (r : Result T) → MemoStep (some r) (some r) r
  complete : (r : Result T) → MemoStep none (some r) r
  abort : (e : DurableError) → MemoStep none none (err e)

-- Nothing is stored, or a step that is not over.
abbrev pub Unsettled : String → ExecutionState → Type 0
Unsettled id s =
    (op : Operation)
    → lookup id s.operations ≡ some op
    → (op.operation_type ≡ OperationType.step)
      × (is_terminal op.status ≡ false)
      × (get_result op ≡ none)

pub unsettled_cases :
    (status : OperationStatus)
    → is_terminal status ≡ false
    → (status ≡ OperationStatus.pending)
      ⊎ ((status ≡ OperationStatus.started) ⊎ (status ≡ OperationStatus.ready))
unfolding is_terminal
unsettled_cases status going = ground arith

module _ {T : Type 0} (serdes : JsonSerDes T) where
  -- The content of the cell of a step.
  abbrev pub Holds : String → ExecutionState → Option (Result T) → Type 0
  Holds id s none = Unsettled id s
  Holds id s (some r) = Settled serdes id s r

  -- A run that is a step of the cell.
  abbrev pub Steps : {S : Type 0} → String → Option (Result T) → Run T S → Type 0
  Steps id before run =
      (after : Option (Result T)) × Holds id run.1 after × MemoStep before after run.0

pub same_cache :
    (id : String) (s t : ExecutionState)
    → t.operations ≡ s.operations
    → Unsettled id s
    → Unsettled id t
same_cache id s t same open_step op e = open_step op (sym (ap (lookup id) same) ∙ e)

Unsettled-Open : (id : String) (s : ExecutionState) → Unsettled id s → OpenStep id s
Unsettled-Open id s open_step op e = let (kind, going, r) = open_step op e in (kind, r)

module _ {S : Type 0} (client : Client S) (quiet : Quiet client) (send : Sender S) {T : Type 0}
    (serdes : JsonSerDes T) (trip : RoundTrip serdes) (id : OperationIdentifier) where
  succeeded :
      (r : Run (Unit {0}) S) (v : T) (text : String) (s : ExecutionState) (w : S)
      → serdes.serialize v ≡ inl text
      → create_checkpoint client send (create_succeed_update id (some text)) true s w ≡ r
      → Unsettled id.operation_id s
      → Steps serdes id.operation_id none (continue r (λ done. pure v))
  unfolding checkpoint_result
  succeeded (ok done, t, x) v text s w e h open_step = (
    some (ok v),
    finish_Settled client quiet send serdes id v v s t w x trip (rw (e, h) refl)
        (Unsettled-Open id.operation_id s open_step),
    MemoStep.complete (ok v),
  )
  succeeded (err m, t, x) v text s w e h open_step = (
    none,
    same_cache id.operation_id s t
        (ap (λ r. r.1.operations) (sym h)
          ∙ (create_checkpoint-Keeps client send (create_succeed_update id (some text)) true s
                w).0.failed
              m (ap (λ r. r.0) h))
        open_step,
    MemoStep.abort m,
  )

  failed :
      (r : Run (Unit {0}) S) (text : String) (s : ExecutionState) (w : S)
      → create_checkpoint client send
          (create_fail_update id (new_error_object "UserCodeError" text))
          true
          s
          w
        ≡ r
      → Unsettled id.operation_id s
      → Steps serdes id.operation_id none (continue r (λ done. fail {A = T} (user_code_error text)))
  failed (ok done, t, x) text s w h open_step = (
    some (err (user_code_error text)),
    recorded_failure client send serdes {R = String} (λ a b. false) (λ c x. (inr text, x)) text id s
        t w x quiet (Unsettled-Open id.operation_id s open_step) h,
    MemoStep.complete (err (user_code_error text)),
  )
  failed (err m, t, x) text s w h open_step = (
    none,
    same_cache id.operation_id s t
        (ap (λ r. r.1.operations) (sym h)
          ∙ (create_checkpoint-Keeps client send
                (create_fail_update id (new_error_object "UserCodeError" text)) true s w).0.failed
              m (ap (λ r. r.0) h))
        open_step,
    MemoStep.abort m,
  )

  written :
      (text : String ⊎ String) (v : T) (s : ExecutionState) (w : S)
      → serdes.serialize v ≡ text
      → Unsettled id.operation_id s
      → Steps serdes id.operation_id none (checkpoint_result serdes client send id (inl v) s w)
  unfolding checkpoint_result
  written (inl text) v s w e open_step =
      let run = create_checkpoint client send (create_succeed_update id (some text)) true s w in
      let same : checkpoint_result serdes client send id (inl v) s w
          ≡ continue run (λ done. pure v) =
        rw e refl in
      subst (Steps serdes id.operation_id none) (sym same)
        (succeeded run v text s w e refl open_step)
  written (inr m) v s w e open_step =
      let problem = DurableError.ser_des ("Failed to serialize step result" <> ": " <> m) in
      let same : checkpoint_result serdes client send id (inl v) s w ≡ (err problem, s, w) =
        rw e refl in
      subst (Steps serdes id.operation_id none) (sym same) (none, open_step, MemoStep.abort problem)

  pub result_Steps :
      (result : T ⊎ String) (s : ExecutionState) (w : S)
      → Unsettled id.operation_id s
      → Steps serdes id.operation_id none (checkpoint_result serdes client send id result s w)
  unfolding checkpoint_result
  result_Steps (inl v) s w open_step = written (serdes.serialize v) v s w refl open_step
  result_Steps (inr text) s w open_step = failed _ text s w refl open_step
