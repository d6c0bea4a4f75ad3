-- ===== src/Handlers/Step/Settled.antt =====
-- Steps of sdk/src/handlers/step.rs that are over: what `step_handler` answers for them.
use durable_execution_rust_s.Prelude.{String, ◌≡◌, refl, true, Option, some}
use durable_execution_rust_s.Prelude.Dict.{lookup}
use durable_execution_rust_s.Errors.{Result, ok, err}
use durable_execution_rust_s.Operation.Kinds.{
  OperationType, OperationStatus, type_eq, status_eq, is_terminal,
}
use durable_execution_rust_s.Operation.Record.{Operation, get_result}
use durable_execution_rust_s.State.Model.{ExecutionState, get_checkpoint_result}
use durable_execution_rust_s.State.Tracking.{track_replay}
use durable_execution_rust_s.Serdes.{JsonSerDes}
use durable_execution_rust_s.Handlers.{OperationIdentifier}
use durable_execution_rust_s.Handlers.Effects.{continue}
use durable_execution_rust_s.Handlers.Step.{
  failed_step, interrupted_step, succeeded_value, as_replayed, by_status, check_type, handle_replay,
}

module _ {T : Type 0} where
  unfoldable pub option_of : Result T → Result (Option T)
  option_of (ok v) = ok (some v)
  option_of (err e) = err e

  module _ {S : Type 0} where
    as_replayed_option :
        (r : Result T) (s : ExecutionState) (w : S)
        → continue (r, s, w) as_replayed ≡ (option_of r, s, w)
    unfolding as_replayed option_of
    as_replayed_option (ok v) s w = refl
    as_replayed_option (err e) s w = refl

module _ {T : Type 0} (serdes : JsonSerDes T) where
  -- What a stored step that is over stands for.
  unfoldable pub recorded : OperationStatus → Operation → Result T
  unfolding failed_step interrupted_step
  recorded OperationStatus.succeeded op = succeeded_value serdes (get_result op)
  recorded OperationStatus.failed op = err (failed_step op.error)
  recorded status op = err (interrupted_step (some status))

  -- The stored operation is a step that is over, and stands for `r`.
  abbrev pub Settled : String → ExecutionState → Result T → Type 0
  Settled id s r =
      (op : Operation) × (lookup id s.operations ≡ some op)
      × (op.operation_type ≡ OperationType.step)
      × (is_terminal op.status ≡ true)
      × (recorded op.status op ≡ r)

  module _ {S : Type 0} where
    pub replay_at :
        (status : OperationStatus) (op : Operation) (id : OperationIdentifier) (s : ExecutionState)
        (w : S)
        → op.status ≡ status
        → op.operation_type ≡ OperationType.step
        → is_terminal status ≡ true
        → handle_replay serdes (record { operation = some op }) id s w
          ≡ (option_of (recorded status op), track_replay s id.operation_id, w)
    unfolding handle_replay by_status check_type option_of recorded type_eq status_eq is_terminal
    replay_at OperationStatus.started op id s w e kind over = absurd cc
    replay_at OperationStatus.pending op id s w e kind over = absurd cc
    replay_at OperationStatus.ready op id s w e kind over = absurd cc
    replay_at OperationStatus.succeeded op id s w e kind over =
        rw (kind, e) (as_replayed_option _ _ w)
    replay_at OperationStatus.failed op id s w e kind over = rw (kind, e) refl
    replay_at OperationStatus.cancelled op id s w e kind over = rw (kind, e) refl
    replay_at OperationStatus.timed_out op id s w e kind over = rw (kind, e) refl
    replay_at OperationStatus.stopped op id s w e kind over = rw (kind, e) refl

    pub replay_settled :
        (r : Result T) (id : OperationIdentifier) (s : ExecutionState) (w : S)
        → Settled id.operation_id s r
        → handle_replay serdes (get_checkpoint_result s id.operation_id) id s w
          ≡ (option_of r, track_replay s id.operation_id, w)
    unfolding get_checkpoint_result
    replay_settled r id s w (op, e, kind, over, is) =
        rw (e, ← is) (replay_at op.status op id s w refl kind over)
