-- ===== src/State/Checkpoint.antt =====
-- Creating checkpoints: `create_checkpoint`, `checkpoint_direct`, `create_checkpoint_with_response`
-- and `complete_execution_*` of sdk/src/state/execution_state.rs. The client and the sender are
-- parameters; a call gives its result, the new execution state and the new outside world.
pub mod Caching
pub mod Laws
pub mod Responses
mod Tests
use durable_execution_rust_s.Prelude.{
  String, ◌<>◌, Bool, true, false, Option, none, some, List, [], ◌∷◌, if◌then◌else◌,
}
use durable_execution_rust_s.Errors.{DurableError, ErrorObject, Result, ok, err, is_ok}
use durable_execution_rust_s.Operation.Kinds.{OperationType}
use durable_execution_rust_s.Operation.Update.{OperationUpdate}
use durable_execution_rust_s.Operation.Update
use durable_execution_rust_s.Client.{Client, Sender, CheckpointResponse, NewExecutionState}
use durable_execution_rust_s.State.Model.{
  ExecutionState, CheckpointingMode, is_eager, is_orphaned, execution_operation_id,
}
use durable_execution_rust_s.State.Cache.{
  update_local_cache_from_update, update_local_cache_from_response,
}

-- The error for a child whose parent has completed.
unfoldable pub orphan_error : OperationUpdate → String → DurableError
orphan_error u parent =
    DurableError.orphaned_child
      ("Cannot checkpoint operation " <> u.operation_id <> " - parent " <> parent
        <> " has completed")
      u.operation_id

no_execution : DurableError
no_execution = DurableError.validation "Cannot complete execution: no EXECUTION operation exists"

-- `effective_is_sync`.
effective_sync : CheckpointingMode → Bool → Bool
effective_sync CheckpointingMode.eager is_sync = true
effective_sync CheckpointingMode.batched is_sync = is_sync
effective_sync CheckpointingMode.optimistic is_sync = is_sync

-- The cache from the response's new state, or else from the update.
cache_response : OperationUpdate → Option NewExecutionState → ExecutionState → ExecutionState
cache_response u none s = update_local_cache_from_update u s
cache_response u (some new) s = update_local_cache_from_response new s

abbrev pub Run {ℓ} : Type ℓ → Type 0 → Type ℓ
Run A S = Result A × ExecutionState × S

module _ {S : Type 0} (client : Client S) where
  after_checkpoint :
      OperationUpdate → ExecutionState → Result CheckpointResponse × S → Run CheckpointResponse S
  unfolding cache_response
  after_checkpoint u s (ok r, w) = (
    ok r,
    cache_response u r.new_execution_state (record s { checkpoint_token = r.checkpoint_token }),
    w,
  )
  after_checkpoint u s (err e, w) = (err e, s, w)

  -- The call of the service that both paths make.
  call_service : OperationUpdate → ExecutionState → S → Run CheckpointResponse S
  unfolding after_checkpoint
  call_service u s w =
      after_checkpoint u s (client.checkpoint s.durable_execution_arn s.checkpoint_token (u ∷ []) w)

  forget : Run CheckpointResponse S → Run (Unit {0}) S
  forget (ok r, s, w) = (ok tt, s, w)
  forget (err e, s, w) = (err e, s, w)

  checkpoint_direct : OperationUpdate → ExecutionState → S → Run (Unit {0}) S
  unfolding call_service forget
  checkpoint_direct u s w = forget (call_service u s w)

  -- The check for an orphaned child, then the rest.
  unless_orphan {ℓ} :
      {A : Type ℓ} → Option String → OperationUpdate → ExecutionState → S → Run A S → Run A S
  unfolding is_orphaned orphan_error
  unless_orphan none u s w rest = rest
  unless_orphan (some parent) u s w rest =
      if is_orphaned s (some parent) then (err (orphan_error u parent), s, w) else rest

  unfoldable pub create_checkpoint_with_response :
      OperationUpdate → ExecutionState → S → Run CheckpointResponse S
  unfolding unless_orphan call_service
  create_checkpoint_with_response u s w = unless_orphan u.parent_id u s w (call_service u s w)

  module _ (send : Sender S) where
    after_send :
        OperationUpdate → ExecutionState → Result (Unit {0}) × String × S → Run (Unit {0}) S
    after_send u s (r, token, w) = (
      r,
      (if is_ok r
          then update_local_cache_from_update u (record s { checkpoint_token = token })
          else record s { checkpoint_token = token }),
      w,
    )

    dispatch : OperationUpdate → Bool → ExecutionState → S → Run (Unit {0}) S
    unfolding checkpoint_direct after_send is_eager effective_sync
    dispatch u is_sync s w =
        if is_eager s.checkpointing_mode
        then checkpoint_direct u s w
        else if s.has_checkpoint_sender
        then after_send u s
            (send u (effective_sync s.checkpointing_mode is_sync) s.checkpoint_token w)
        else checkpoint_direct u s w

    unfoldable pub create_checkpoint :
        OperationUpdate → Bool → ExecutionState → S → Run (Unit {0}) S
    unfolding unless_orphan dispatch
    create_checkpoint u is_sync s w = unless_orphan u.parent_id u s w (dispatch u is_sync s w)

    -- `checkpoint_optimal`.
    unfoldable pub checkpoint_optimal :
        OperationUpdate → Bool → ExecutionState → S → Run (Unit {0}) S
    unfolding create_checkpoint
    checkpoint_optimal u prefer_sync s w =
        create_checkpoint u (effective_sync s.checkpointing_mode prefer_sync) s w

    complete : Option String → (String → OperationUpdate) → ExecutionState → S → Run (Unit {0}) S
    unfolding no_execution
    complete none update s w = (err no_execution, s, w)
    complete (some id) update s w = create_checkpoint (update id) true s w

    unfoldable pub complete_execution_success :
        Option String → ExecutionState → S → Run (Unit {0}) S
    unfolding complete execution_operation_id
    complete_execution_success result s w =
        complete (execution_operation_id s) (λ id. Update.succeed id OperationType.execution result)
          s w

    unfoldable pub complete_execution_failure : ErrorObject → ExecutionState → S → Run (Unit {0}) S
    unfolding complete execution_operation_id
    complete_execution_failure error s w =
        complete (execution_operation_id s) (λ id. Update.fail id OperationType.execution error) s w
