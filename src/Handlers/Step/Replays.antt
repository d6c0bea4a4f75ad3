-- ===== src/Handlers/Step/Replays.antt =====
-- The outcome of a step of sdk/src/handlers/step.rs is the outcome of every later run of it.
use durable_execution_rust_s.Prelude.{
  String, ◌≡◌, ◌≢◌, refl, sym, ap, subst, ◌∙◌, ◌⊎◌, inl, inr, Bool, true, false, Option, none, some,
  if◌then◌else◌, arith,
}
use durable_execution_rust_s.Prelude.Dict.{lookup}
use durable_execution_rust_s.Errors.{Result, ok, err}
use durable_execution_rust_s.Operation.Kinds.{
  OperationType, type_eq, type_eq_iff, status_eq, is_terminal,
}
use durable_execution_rust_s.Operation.Record.{Operation, get_result}
use durable_execution_rust_s.Operation.Update.{OperationUpdate}
use durable_execution_rust_s.Operation.Update
use durable_execution_rust_s.Client.{Client, Sender}
use durable_execution_rust_s.CheckpointedResult.{CheckpointedResult}
use durable_execution_rust_s.CheckpointedResult
use durable_execution_rust_s.State.Model.{ExecutionState}
use durable_execution_rust_s.State.Cache.Entries.{
  Started, Succeeded, stores-Started, stores-Succeeded,
}
use durable_execution_rust_s.State.Checkpoint.{Run, create_checkpoint}
use durable_execution_rust_s.State.Checkpoint.Caching.{Quiet, checkpoint-Stores}
use durable_execution_rust_s.State.Tracking.{track_replay}
use durable_execution_rust_s.Serdes.{JsonSerDes, RoundTrip}
use durable_execution_rust_s.Handlers.{OperationIdentifier}
use durable_execution_rust_s.Handlers.Updates.{apply_to-Is}
use durable_execution_rust_s.Handlers.Effects.{pure, continue, checkpoint}
use durable_execution_rust_s.Handlers.Step.{
  StepContext, StepConfig, succeeded_value, by_status, check_type, handle_replay, step_context,
  execute_with_retry, checkpoint_result, checkpoint_start, run_step, execute_step,
  create_start_update, create_succeed_update,
}
use durable_execution_rust_s.Handlers.Step.Settled.{recorded, Settled, option_of, replay_at}

-- What is stored of a step that is not over has no result.
abbrev pub NoStaleResult : String → ExecutionState → Type 0
NoStaleResult id s =
    (op : Operation)
    → lookup id s.operations ≡ some op
    → is_terminal op.status ≡ false
    → get_result op ≡ none

-- What is stored under the id is a step without a result.
abbrev pub OpenStep : String → ExecutionState → Type 0
OpenStep id s =
    (op : Operation)
    → lookup id s.operations ≡ some op
    → (op.operation_type ≡ OperationType.step) × (get_result op ≡ none)

same_open :
    (op op' : Operation)
    → op ≡ op'
    → op.operation_type ≡ OperationType.step
    → get_result op ≡ none
    → (op'.operation_type ≡ OperationType.step) × (get_result op' ≡ none)
same_open op op' e kind r =
    subst (λ o. (o.operation_type ≡ OperationType.step) × (get_result o ≡ none)) e (kind, r)

some_inj : (op op' : Operation) → some op ≡ some op' → op ≡ op'
some_inj op op' e = cc

pub open_stored :
    (id : String) (s : ExecutionState) (op : Operation)
    → lookup id s.operations ≡ some op
    → op.operation_type ≡ OperationType.step
    → get_result op ≡ none
    → OpenStep id s
open_stored id s op e kind r op' e' = same_open op op' (some_inj op op' (sym e ∙ e')) kind r

pub open_missing :
    (id : String) (s : ExecutionState) → lookup id s.operations ≡ none → OpenStep id s
open_missing id s e op e' = absurd (cc)

module _ {T S : Type 0} (serdes : JsonSerDes T) where
  pub is_step :
      (op : Operation) (id : OperationIdentifier) (o : Option T) (s s' : ExecutionState) (w w' : S)
      → handle_replay serdes (record { operation = some op }) id s w ≡ (ok o, s', w')
      → op.operation_type ≡ OperationType.step
  unfolding handle_replay check_type
  is_step op id o s s' w w' h = ground (arith, type_eq_iff op.operation_type OperationType.step)

  ends_at :
      (r : Result T) (o : Option T) (t s' : ExecutionState) (w w' : S)
      → ◌≡◌ {A = Run (Option T) S} (option_of r, t, w) (ok o, s', w')
      → (v : T) × (o ≡ some v) × (r ≡ ok v) × (s' ≡ t) × (w' ≡ w)
  unfolding option_of
  ends_at (ok v) o t s' w w' h = (v, ground arith, refl, ground arith, ground arith)
  ends_at (err e) o t s' w w' h = absurd cc

  -- A stored step that gives a value or goes on.
  pub over :
      (op : Operation) (id : OperationIdentifier) (o : Option T) (s s' : ExecutionState) (w w' : S)
      → op.operation_type ≡ OperationType.step
      → is_terminal op.status ≡ true
      → handle_replay serdes (record { operation = some op }) id s w ≡ (ok o, s', w')
      → (v : T) × (o ≡ some v)
        × (recorded serdes op.status op ≡ ok v)
        × (s' ≡ track_replay s id.operation_id)
        × (w' ≡ w)
  over op id o s s' w w' kind end h =
      ends_at _ o _ s' w w' (sym (replay_at serdes op.status op id s w refl kind end) ∙ h)

  pub not_over :
      (op : Operation) (id : OperationIdentifier) (o : Option T) (s s' : ExecutionState) (w w' : S)
      → op.operation_type ≡ OperationType.step
      → is_terminal op.status ≡ false
      → handle_replay serdes (record { operation = some op }) id s w ≡ (ok o, s', w')
      → (o ≡ none) × (s' ≡ s) × (w' ≡ w)
  unfolding handle_replay check_type by_status type_eq status_eq is_terminal
  not_over op id o s s' w w' kind end h = ground arith

then_pure :
    {S T : Type 0} (r : Run (Unit {0}) S) (v v' : T) (s' : ExecutionState) (w' : S)
    → continue r (λ done. pure v) ≡ (ok v', s', w')
    → (r ≡ (ok tt, s', w')) × (v ≡ v')
then_pure (ok tt, s, w) v v' s' w' h = (ground arith, ground arith)
then_pure (err e, s, w) v v' s' w' h = absurd cc

module _ {S : Type 0} (client : Client S) (quiet : Quiet client) (send : Sender S) where
  pub start_Open :
      (b : Bool) (id : OperationIdentifier) (s s' : ExecutionState) (w w' : S)
      → (if b then checkpoint client send (create_start_update id) else pure tt) s w
        ≡ (ok tt, s', w')
      → OpenStep id.operation_id s
      → OpenStep id.operation_id s'
  unfolding create_start_update Update.start
  start_Open true id s s' w w' h free =
      let (op, e, kind, (begun, no_result)) =
        checkpoint-Stores client quiet send (create_start_update id) true s s' w w' id.operation_id
          OperationType.step Started h
          (stores-Started (create_start_update id) s
            (apply_to-Is id (Update.start id.operation_id OperationType.step))) in
      open_stored id.operation_id s' op e kind no_result
  start_Open false id s s' w w' h free = subst (OpenStep id.operation_id) (ap (λ r. r.1) h) free

  module _ {T : Type 0} (serdes : JsonSerDes T) where
    -- The result is written, and accepted.
    finished :
        (written : String ⊎ String) (id : OperationIdentifier) (v v' : T) (s s' : ExecutionState)
        (w w' : S)
        → serdes.serialize v ≡ written
        → checkpoint_result serdes client send id (inl v) s w ≡ (ok v', s', w')
        → (text : String) × (serdes.serialize v ≡ inl text)
          × (v ≡ v')
          × (create_checkpoint client send (create_succeed_update id (some text)) true s w
              ≡ (ok tt, s', w'))
    unfolding checkpoint_result
    finished (inl text) id v v' s s' w w' e h =
        let run = create_checkpoint client send (create_succeed_update id (some text)) true s w in
        let same : checkpoint_result serdes client send id (inl v) s w
            ≡ continue run (λ done. pure v) =
          rw e refl in
        let done = then_pure run v v' s' w' (sym same ∙ h) in (text, e, done.1, done.0)
    finished (inr m) id v v' s s' w w' e h = absurd (ground arith)

    never :
        (e : String) (id : OperationIdentifier) (v : T) (s s' : ExecutionState) (w w' : S)
        → checkpoint_result serdes client send id (inr e) s w ≢ (ok v, s', w')
    unfolding checkpoint_result
    never e id v s s' w w' h = ground arith

    pub finish_Settled :
        (id : OperationIdentifier) (v v' : T) (s s' : ExecutionState) (w w' : S)
        → RoundTrip serdes
        → checkpoint_result serdes client send id (inl v) s w ≡ (ok v', s', w')
        → OpenStep id.operation_id s
        → Settled serdes id.operation_id s' (ok v')
    unfolding create_succeed_update Update.succeed recorded succeeded_value is_terminal
    finish_Settled id v v' s s' w w' trip h free =
        let (text, e, same, accepted) = finished (serdes.serialize v) id v v' s s' w w' refl h in
        let (op, here, kind, (done, read)) =
          checkpoint-Stores client quiet send (create_succeed_update id (some text)) true s s' w w'
            id.operation_id OperationType.step (Succeeded (some text)) accepted
            (stores-Succeeded (create_succeed_update id (some text)) s
              (apply_to-Is id (Update.succeed id.operation_id OperationType.step (some text)))
              free) in
        (op, here, kind, rw done refl, rw (done, read, trip v text e, same) refl)

module _ {S : Type 0} (client : Client S) (quiet : Quiet client) (send : Sender S) {T : Type 0}
    (serdes : JsonSerDes T) (trip : RoundTrip serdes) {R : Type 0}
    (is_match : R → String → Bool) where
  called :
      (result : T ⊎ String) (id : OperationIdentifier) (v : T) (s s' : ExecutionState) (w w' : S)
      → checkpoint_result serdes client send id result s w ≡ (ok v, s', w')
      → OpenStep id.operation_id s
      → Settled serdes id.operation_id s' (ok v)
  called (inl v) id v' s s' w w' h free =
      finish_Settled client quiet send serdes id v v' s s' w w' trip h free
  called (inr e) id v' s s' w w' h free =
      absurd (never client quiet send serdes e id v' s s' w w' h)

  -- The step after its START checkpoint.
  module _ (func : StepContext → S → (T ⊎ String) × S) (c : CheckpointedResult)
      (id : OperationIdentifier) (config : StepConfig R) where
    begun_Settled :
        (r : Run (Unit {0}) S) (v : T) (s s' : ExecutionState) (w w' : S)
        → checkpoint_start serdes client send config.step_semantics
            (CheckpointedResult.is_ready c)
            id
            s
            w
          ≡ r
        → continue r (λ done t u.
          let (result, u') =
            execute_with_retry is_match func (step_context id t.durable_execution_arn c) config u in
          checkpoint_result serdes client send id result t u')
          ≡ (ok v, s', w')
        → OpenStep id.operation_id s
        → Settled serdes id.operation_id s' (ok v)
    unfolding checkpoint_start
    begun_Settled (ok done, t, u) v s s' w w' e h free =
        called _ id v t s' _ w' h (start_Open client quiet send _ id s t w u e free)
    begun_Settled (err m, t, u) v s s' w w' e h free = absurd cc

    pub executed_Settled :
        (v : T) (s s' : ExecutionState) (w w' : S)
        → execute_step serdes client send is_match func c id config s w ≡ (ok v, s', w')
        → OpenStep id.operation_id s
        → Settled serdes id.operation_id s' (ok v)
    unfolding execute_step run_step
    executed_Settled v s s' w w' h free = begun_Settled _ v s s' w w' refl h free
