-- ===== src/Handlers/Wait/Laws.antt =====
-- `wait_handler` and `wait_cancel_handler` of sdk/src/handlers/wait.rs: when a wait is over.
use durable_execution_rust_s.Prelude.{
  ℕ, ◌≤◌, ◌≡◌, ◌≢◌, ◌↔◌, ◌⊎◌, inl, inr, refl, ap, String, eq_iff, true, false, Option, none, some,
  [], ◌∷◌, arith, ltb,
}
use durable_execution_rust_s.Prelude.Dict.{lookup, lookup-insert}
use durable_execution_rust_s.Errors.{ok, err}
use durable_execution_rust_s.Operation.Kinds.{
  OperationType, OperationStatus, type_eq, type_eq_refl, is_terminal,
}
use durable_execution_rust_s.Operation.Record.{Operation}
use durable_execution_rust_s.Operation.Update.{cancel}
use durable_execution_rust_s.Client.{Client, Sender, CheckpointResponse}
use durable_execution_rust_s.State.Model.{
  ExecutionState, CheckpointingMode, is_eager, get_checkpoint_result,
}
use durable_execution_rust_s.State.Checkpoint.{Run, create_checkpoint}
use durable_execution_rust_s.State.Cache.{update_local_cache_from_update}
use durable_execution_rust_s.State.Tracking.{track_replay}
use durable_execution_rust_s.Handlers.{OperationIdentifier}
use durable_execution_rust_s.Handlers.Wait.{
  min_wait_seconds, create_start_update, suspended, start_wait_operation, stored_wait, check_stored,
  wait_handler, if_wait, wait_cancel_handler,
}

-- A stored wait that is over.
abbrev pub IsOver : Operation → Type 0
IsOver op =
    (op.operation_type ≡ OperationType.wait)
    × ((op.status ≡ OperationStatus.succeeded) ⊎ (op.status ≡ OperationStatus.cancelled))

module _ {S : Type 0} (client : Client S) (send : Sender S) where
  never_ok : (r : Run (Unit {0}) S) → (suspended r).0 ≢ ok tt
  unfolding suspended
  never_ok (ok done, s, w) h = cc
  never_ok (err e, s, w) h = cc

  returned_only_if :
      (o : Option Operation) (id : OperationIdentifier) (s : ExecutionState) (w : S)
      (rest : Run (Unit {0}) S)
      → rest.0 ≢ ok tt
      → (check_stored client send (record { operation = o }) id s w rest).0 ≡ ok tt
      → (op : Operation) × (o ≡ some op) × IsOver op
  unfolding check_stored stored_wait if_wait type_eq
  returned_only_if none id s w rest no_rest h = absurd (no_rest h)
  returned_only_if (some op) id s w rest no_rest h = (op, refl, (ground arith, ground arith))

  returned_if :
      (op : Operation) (id : OperationIdentifier) (s : ExecutionState) (w : S)
      (rest : Run (Unit {0}) S)
      → IsOver op
      → check_stored client send (record { operation = some op }) id s w rest
        ≡ (ok tt, track_replay s id.operation_id, w)
  unfolding check_stored stored_wait if_wait type_eq
  returned_if op id s w rest (kind, inl e) = ground arith
  returned_if op id s w rest (kind, inr e) = ground arith

  -- A wait of at least one second returns exactly when the operation is stored as a wait that
  -- succeeded or was cancelled; then the operation is tracked and the service is not called.
  pub wait_handler_returns :
      (seconds : ℕ) (id : OperationIdentifier) (s : ExecutionState) (w : S)
      → min_wait_seconds ≤ seconds
      → ((wait_handler client send seconds id s w).0 ≡ ok tt
          ↔ ((op : Operation) × (lookup id.operation_id s.operations ≡ some op) × IsOver op))
        × ((wait_handler client send seconds id s w).0 ≡ ok tt
            → wait_handler client send seconds id s w ≡ (ok tt, track_replay s id.operation_id, w))
  unfolding wait_handler start_wait_operation get_checkpoint_result
  wait_handler_returns seconds id s w long =
      let big : ltb seconds min_wait_seconds ≡ false = ground arith in
      let rest = start_wait_operation client send id seconds s w in
      let only_if =
        returned_only_if (lookup id.operation_id s.operations) id s w rest
          (never_ok (create_checkpoint client send (create_start_update id seconds) true s w)) in
      rw big (
        (
          only_if,
          λ h. let (op, e, over) = h in rw e (ap (λ r. r.0) (returned_if op id s w rest over)),
        ),
        λ h. let (op, e, over) = only_if h in rw e (returned_if op id s w rest over),
      )

  direct_cancel :
      (id : String) (s : ExecutionState) (w w' : S) (r : CheckpointResponse)
      → s.checkpointing_mode ≡ CheckpointingMode.eager
      → client.checkpoint s.durable_execution_arn s.checkpoint_token
          (cancel id OperationType.wait ∷ [])
          w
        ≡ (ok r, w')
      → r.new_execution_state ≡ none
      → create_checkpoint client send (cancel id OperationType.wait) true s w ≡ (
        ok tt,
        update_local_cache_from_update
            (cancel id OperationType.wait)
            (record s { checkpoint_token = r.checkpoint_token }),
        w',
      )
  unfolding create_checkpoint is_eager cancel
  direct_cancel id s w w' r mode answers no_state = rw (mode, answers, no_state) refl

  after_cancel :
      (id : String) (s : ExecutionState) (op : Operation)
      → lookup id s.operations ≡ some op
      → lookup id (update_local_cache_from_update (cancel id OperationType.wait) s).operations
        ≡ some (record op { status = OperationStatus.cancelled })
  unfolding update_local_cache_from_update cancel
  after_cancel id s op e = rw e (
      ground (
        arith,
        lookup-insert id id (record op { status = OperationStatus.cancelled }) s.operations,
        eq_iff id id,
      ))

  cancelled_run :
      (i : String) (s : ExecutionState) (w w' : S) (op : Operation) (r : CheckpointResponse)
      → s.checkpointing_mode ≡ CheckpointingMode.eager
      → lookup i s.operations ≡ some op
      → op.operation_type ≡ OperationType.wait
      → is_terminal op.status ≡ false
      → client.checkpoint s.durable_execution_arn s.checkpoint_token
          (cancel i OperationType.wait ∷ [])
          w
        ≡ (ok r, w')
      → r.new_execution_state ≡ none
      → wait_cancel_handler client send i s w ≡ (
        ok tt,
        update_local_cache_from_update
            (cancel i OperationType.wait)
            (record s { checkpoint_token = r.checkpoint_token }),
        w',
      )
  unfolding wait_cancel_handler get_checkpoint_result if_wait
  cancelled_run i s w w' op r mode e kind active answers no_state =
      rw (e, kind, type_eq_refl OperationType.wait, active)
        (direct_cancel i s w w' r mode answers no_state)

  -- In eager mode, when the service accepts the cancellation of an active wait without sending a
  -- new state, the cancellation succeeds, and a wait of at least one second on that operation then
  -- returns.
  pub cancel_ends_wait :
      (seconds : ℕ) (id : OperationIdentifier) (s : ExecutionState) (w w' : S) (op : Operation)
      (r : CheckpointResponse)
      → min_wait_seconds ≤ seconds
      → s.checkpointing_mode ≡ CheckpointingMode.eager
      → lookup id.operation_id s.operations ≡ some op
      → op.operation_type ≡ OperationType.wait
      → is_terminal op.status ≡ false
      → client.checkpoint s.durable_execution_arn s.checkpoint_token
          (cancel id.operation_id OperationType.wait ∷ [])
          w
        ≡ (ok r, w')
      → r.new_execution_state ≡ none
      → let after = wait_cancel_handler client send id.operation_id s w in
        (after.0 ≡ ok tt) × ((wait_handler client send seconds id after.1 after.2).0 ≡ ok tt)
  cancel_ends_wait seconds id s w w' op r long mode e kind active answers no_state =
      rw (cancelled_run id.operation_id s w w' op r mode e kind active answers no_state) (
        refl,
        (wait_handler_returns seconds id _ w' long).0.1 (
          record op { status = OperationStatus.cancelled },
          after_cancel id.operation_id (record s { checkpoint_token = r.checkpoint_token }) op e,
          (kind, inr refl),
        ),
      )
