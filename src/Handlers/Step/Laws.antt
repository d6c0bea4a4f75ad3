-- ===== src/Handlers/Step/Laws.antt =====
-- `step_handler` of sdk/src/handlers/step.rs: a step that is over is answered from the checkpoint, and
-- what a run answered is what every later run answers.
use durable_execution_rust_s.Prelude.{
  String, ◌≡◌, refl, sym, subst, ap, Bool-cases, ◌∙◌, ◌⊎◌, inl, inr, Bool, true, Option, none, some,
  arith,
}
use durable_execution_rust_s.Prelude.Dict.{lookup}
use durable_execution_rust_s.Errors.{Result, ok, err}
use durable_execution_rust_s.Operation.Kinds.{OperationType, is_terminal}
use durable_execution_rust_s.Operation.Record.{Operation}
use durable_execution_rust_s.Client.{Client, Sender}
use durable_execution_rust_s.State.Model.{ExecutionState, get_checkpoint_result}
use durable_execution_rust_s.State.Checkpoint.{Run}
use durable_execution_rust_s.State.Checkpoint.Caching.{Quiet}
use durable_execution_rust_s.State.Tracking.{track_replay}
use durable_execution_rust_s.Serdes.{JsonSerDes, RoundTrip}
use durable_execution_rust_s.Handlers.{OperationIdentifier}
use durable_execution_rust_s.Handlers.Effects.{Handler, continue}
use durable_execution_rust_s.Handlers.Step.{
  StepContext, StepConfig, handle_replay, execute_step, or_execute, replay_or, step_handler,
}
use durable_execution_rust_s.Handlers.Step.Settled.{recorded, Settled, option_of, replay_settled}
use durable_execution_rust_s.Handlers.Step.Replays.{
  NoStaleResult, OpenStep, open_missing, open_stored, is_step, over, not_over, executed_Settled,
}

module _ {S : Type 0} (client : Client S) (send : Sender S) {T : Type 0} (serdes : JsonSerDes T)
    {R : Type 0} (is_match : R → String → Bool) where
  answered :
      (r : Result T) (s : ExecutionState) (w : S) (rest : Handler S T)
      → continue (option_of r, s, w) (λ found. or_execute found rest) ≡ (r, s, w)
  unfolding option_of or_execute
  answered (ok v) s w rest = refl
  answered (err e) s w rest = refl

  -- A stored step that is over is answered by what was recorded, whatever the function and the
  -- configuration now are: the operation is tracked, and neither the function nor the service is
  -- called.
  pub settled_step_is_not_run :
      (func : StepContext → S → (T ⊎ String) × S) (config : StepConfig R) (id : OperationIdentifier)
      (s : ExecutionState) (w : S) (r : Result T)
      → Settled serdes id.operation_id s r
      → step_handler serdes client send is_match func id config s w
        ≡ (r, track_replay s id.operation_id, w)
  unfolding step_handler replay_or
  settled_step_is_not_run func config id s w r settled =
      rw (replay_settled serdes r id s w settled) (answered r _ w _)

  tracked_Settled :
      (op : Operation) (id : OperationIdentifier) (v : T) (s : ExecutionState)
      → lookup id.operation_id s.operations ≡ some op
      → op.operation_type ≡ OperationType.step
      → is_terminal op.status ≡ true
      → recorded serdes op.status op ≡ ok v
      → Settled serdes id.operation_id (track_replay s id.operation_id) (ok v)
  unfolding track_replay
  tracked_Settled op id v s e kind end is = (op, e, kind, end, is)

  module _ (quiet : Quiet client) (trip : RoundTrip serdes)
      (func : StepContext → S → (T ⊎ String) × S) (config : StepConfig R) (id : OperationIdentifier)
      (v : T) (s : ExecutionState) (w : S) where
    resumed :
        (o : Option Operation) (r : Run (Option T) S) (s' : ExecutionState) (w' : S)
        → lookup id.operation_id s.operations ≡ o
        → NoStaleResult id.operation_id s
        → handle_replay serdes (record { operation = o }) id s w ≡ r
        → continue r (λ found.
          or_execute found
            (execute_step serdes client send is_match func (record { operation = o }) id config))
          ≡ (ok v, s', w')
        → Settled serdes id.operation_id s' (ok v)
    unfolding handle_replay or_execute
    resumed none (ok none, t, u) s' w' e fresh h run =
        executed_Settled client quiet send serdes trip is_match func (record { operation = none })
          id config v t s' u w' run
          (subst (OpenStep id.operation_id) (ap (λ r. r.1) h) (open_missing id.operation_id s e))
    resumed (some op) (ok none, t, u) s' w' e fresh h run =
        let kind = is_step serdes op id none s t w u h in
        elim (Bool-cases (is_terminal op.status)) [
          | inl end ↦
              let (v', absurdum, rest, more, most) = over serdes op id none s t w u kind end h in
              absurd cc
          | inr going ↦
              let (gone, same, world) = not_over serdes op id none s t w u kind going h in
              executed_Settled client quiet send serdes trip is_match func
                (record { operation = some op }) id config v t s' u w' run
                (subst (OpenStep id.operation_id) (sym same)
                  (open_stored id.operation_id s op e kind (fresh op e going)))
        ]
    resumed none (ok (some v'), t, u) s' w' e fresh h run = absurd cc
    resumed (some op) (ok (some v'), t, u) s' w' e fresh h run =
        let kind = is_step serdes op id (some v') s t w u h in
        elim (Bool-cases (is_terminal op.status)) [
          | inl end ↦
              let (v0, eo, is, same, world) = over serdes op id (some v') s t w u kind end h in
              subst (λ x. Settled serdes id.operation_id x (ok v)) (sym same ∙ ap (λ r. r.1) run)
                (tracked_Settled op id v s e kind end (ground arith))
          | inr going ↦
              let (absurdum, rest, more) = not_over serdes op id (some v') s t w u kind going h in
              absurd cc
        ]
    resumed o (err m, t, u) s' w' e fresh h run = absurd cc

    step_Settled :
        (s' : ExecutionState) (w' : S)
        → NoStaleResult id.operation_id s
        → step_handler serdes client send is_match func id config s w ≡ (ok v, s', w')
        → Settled serdes id.operation_id s' (ok v)
    unfolding step_handler replay_or get_checkpoint_result
    step_Settled s' w' fresh h =
        resumed (lookup id.operation_id s.operations) _ s' w' refl fresh refl h

    -- When the service sends no new state, what is serialized is read back, and a stored step that
    -- is not over has no result: a step that returned a value returns that value in every later
    -- run on the state it left, whatever function, configuration and world that run has, and that
    -- run calls neither the function nor the service.
    pub step_result_replayed :
        (s' : ExecutionState) (w' : S)
        → NoStaleResult id.operation_id s
        → step_handler serdes client send is_match func id config s w ≡ (ok v, s', w')
        → (func' : StepContext → S → (T ⊎ String) × S) (config' : StepConfig R) (later : S)
        → step_handler serdes client send is_match func' id config' s' later
          ≡ (ok v, track_replay s' id.operation_id, later)
    step_result_replayed s' w' fresh h func' config' later =
        settled_step_is_not_run func' config' id s' later (ok v) (step_Settled s' w' fresh h)
