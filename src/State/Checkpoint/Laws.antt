-- ===== src/State/Checkpoint/Laws.antt =====
-- `create_checkpoint` and `create_checkpoint_with_response` of sdk/src/state/execution_state.rs: the
-- check for orphans, the eager mode, and what a call leaves as it was.
use durable_execution_rust_s.Prelude.{
  String, ◌≡◌, refl, Bool, true, false, Option, none, some, arith, if◌then◌else◌,
}
use durable_execution_rust_s.Errors.{DurableError, Result, ok, err}
use durable_execution_rust_s.Operation.Update.{OperationUpdate}
use durable_execution_rust_s.Client.{Client, Sender, CheckpointResponse, NewExecutionState}
use durable_execution_rust_s.State.Model.{
  ExecutionState, CheckpointingMode, is_parent_done, is_orphaned, is_eager,
}
use durable_execution_rust_s.State.Invariant.{IsValid}
use durable_execution_rust_s.State.Cache.{
  update_local_cache_from_update, update_local_cache_from_response,
}
use durable_execution_rust_s.State.Cache.Laws.{update-IsValid, response-IsValid}
use durable_execution_rust_s.State.Checkpoint.{
  Run, orphan_error, cache_response, after_checkpoint, call_service, forget, checkpoint_direct,
  unless_orphan, after_send, dispatch, create_checkpoint_with_response, create_checkpoint,
}

-- What no checkpoint changes.
pub record SameBut (s t : ExecutionState) : Type 0 where
  pub same_arn : t.durable_execution_arn ≡ s.durable_execution_arn
  pub same_status : t.replay_status ≡ s.replay_status
  pub same_replayed : t.replayed_operations ≡ s.replayed_operations
  pub same_marker : t.next_marker ≡ s.next_marker
  pub same_parents : t.done_parents ≡ s.done_parents
  pub same_execution : t.execution_operation ≡ s.execution_operation
  pub same_mode : t.checkpointing_mode ≡ s.checkpointing_mode
  pub same_sender : t.has_checkpoint_sender ≡ s.has_checkpoint_sender

token-IsValid :
    (s : ExecutionState) (token : String)
    → IsValid s
    → IsValid (record s { checkpoint_token = token })
token-IsValid s token v = record {
  filed = v.filed;
  one_each = v.one_each;
  replayed_once = v.replayed_once;
}

module _ {S : Type 0} (client : Client S) where
  -- A checkpoint for a child of a completed parent fails with the orphan error in both functions,
  -- in any mode and with or without a sender, and touches neither the state nor the service.
  pub orphan_rejected :
      (send : Sender S) (u : OperationUpdate) (is_sync : Bool) (s : ExecutionState) (w : S)
      (parent : String)
      → u.parent_id ≡ some parent
      → is_parent_done s parent ≡ true
      → (create_checkpoint client send u is_sync s w ≡ (err (orphan_error u parent), s, w))
        × (create_checkpoint_with_response client u s w ≡ (err (orphan_error u parent), s, w))
  unfolding create_checkpoint create_checkpoint_with_response
  orphan_rejected send u is_sync s w parent p d =
      (rw (p, unless_orphan) (rw d refl), rw (p, unless_orphan) (rw d refl))

  -- In eager mode a checkpoint does not depend on the sender or on the wish for a synchronous
  -- checkpoint.
  pub eager_bypasses_sender :
      (send send' : Sender S) (u : OperationUpdate) (is_sync is_sync' : Bool) (s : ExecutionState)
      (w : S)
      → s.checkpointing_mode ≡ CheckpointingMode.eager
      → create_checkpoint client send u is_sync s w ≡ create_checkpoint client send' u is_sync' s w
  unfolding create_checkpoint
  eager_bypasses_sender send send' u is_sync is_sync' s w e = rw (e, is_eager) refl

  -- A call that leaves the bookkeeping alone, keeps a well-formed state well formed, and leaves the
  -- cache as it was when it fails.
  pub record Keeps {ℓ} {A : Type ℓ} (s : ExecutionState) (r : Run A S) : Type ℓ where
    pub frame : SameBut s r.1
    pub valid : IsValid s → IsValid r.1
    pub failed : (e : DurableError) → r.0 ≡ err e → r.1.operations ≡ s.operations

  SameBut-token :
      (s : ExecutionState) (token : String) → SameBut s (record s { checkpoint_token = token })
  SameBut-token s token = ground arith

  same_state : (s : ExecutionState) → SameBut s s
  same_state s = ground arith

  refused_Keeps {ℓ} :
      {A : Type ℓ} (e : DurableError) (s : ExecutionState) (w : S) → Keeps {A = A} s (err e, s, w)
  refused_Keeps e s w = record { frame = same_state s; valid = λ v. v; failed = λ e' h. refl }

  if_Keeps {ℓ} :
      {A : Type ℓ} (b : Bool) (s : ExecutionState) {r r' : Run A S}
      → Keeps s r
      → Keeps s r'
      → Keeps s (if b then r else r')
  if_Keeps true s k k' = k
  if_Keeps false s k k' = k'

  cached_Keeps {ℓ} :
      {A : Type ℓ} (u : OperationUpdate) (new : Option NewExecutionState) (token : String) (a : A)
      (s : ExecutionState) (w : S)
      → Keeps s (ok a, cache_response u new (record s { checkpoint_token = token }), w)
  unfolding cache_response update_local_cache_from_update update_local_cache_from_response
  cached_Keeps u none token a s w = record {
    frame = ground arith;
    valid =
        λ v. (update-IsValid u (record s { checkpoint_token = token }) (token-IsValid s token v)).0;
    failed = λ e h. cc;
  }
  cached_Keeps u (some new) token a s w = record {
    frame = ground arith;
    valid =
        λ v. response-IsValid new (record s { checkpoint_token = token }) (token-IsValid s token v);
    failed = λ e h. cc;
  }

  after_checkpoint-Keeps :
      (u : OperationUpdate) (s : ExecutionState) (a : Result CheckpointResponse × S)
      → Keeps s (after_checkpoint client u s a)
  unfolding after_checkpoint
  after_checkpoint-Keeps u s (ok r, w) =
      cached_Keeps u r.new_execution_state r.checkpoint_token r s w
  after_checkpoint-Keeps u s (err e, w) = refused_Keeps e s w

  forget-Keeps :
      (s : ExecutionState) (r : Run CheckpointResponse S) → Keeps s r → Keeps s (forget client r)
  unfolding forget
  forget-Keeps s (ok r, t, w) k = record { frame = k.frame; valid = k.valid; failed = λ e h. cc }
  forget-Keeps s (err e, t, w) k = record {
    frame = k.frame;
    valid = k.valid;
    failed = λ e' h. k.failed e refl;
  }

  direct_Keeps :
      (u : OperationUpdate) (s : ExecutionState) (w : S) → Keeps s (checkpoint_direct client u s w)
  unfolding checkpoint_direct call_service
  direct_Keeps u s w = forget-Keeps s _ (after_checkpoint-Keeps u s _)

  unless_orphan-Keeps {ℓ} :
      {A : Type ℓ} (p : Option String) (u : OperationUpdate) (s : ExecutionState) (w : S)
      (r : Run A S)
      → Keeps s r
      → Keeps s (unless_orphan client p u s w r)
  unfolding unless_orphan
  unless_orphan-Keeps none u s w r k = k
  unless_orphan-Keeps (some parent) u s w r k =
      if_Keeps (is_orphaned s (some parent)) s (refused_Keeps (orphan_error u parent) s w) k

  after_send-Keeps :
      (send : Sender S) (u : OperationUpdate) (s : ExecutionState)
      (a : Result (Unit {0}) × String × S)
      → Keeps s (after_send client send u s a)
  unfolding after_send update_local_cache_from_update cache_response
  after_send-Keeps send u s (ok a, token, w) = cached_Keeps u none token a s w
  after_send-Keeps send u s (err e, token, w) = record {
    frame = SameBut-token s token;
    valid = token-IsValid s token;
    failed = λ e' h. refl;
  }

  dispatch-Keeps :
      (send : Sender S) (u : OperationUpdate) (is_sync : Bool) (s : ExecutionState) (w : S)
      → Keeps s (dispatch client send u is_sync s w)
  unfolding dispatch
  dispatch-Keeps send u is_sync s w =
      if_Keeps (is_eager s.checkpointing_mode) s (direct_Keeps u s w)
        (if_Keeps s.has_checkpoint_sender s (after_send-Keeps send u s _) (direct_Keeps u s w))

  -- Every checkpoint, whatever the service or the sender answers, changes only the cache and the
  -- token, keeps a well-formed state well formed, and leaves the cache as it was when it fails.
  pub create_checkpoint-Keeps :
      (send : Sender S) (u : OperationUpdate) (is_sync : Bool) (s : ExecutionState) (w : S)
      → Keeps s (create_checkpoint client send u is_sync s w)
        × Keeps s (create_checkpoint_with_response client u s w)
  unfolding create_checkpoint create_checkpoint_with_response
  create_checkpoint-Keeps send u is_sync s w = (
    unless_orphan-Keeps u.parent_id u s w _ (dispatch-Keeps send u is_sync s w),
    unless_orphan-Keeps u.parent_id u s w _ (unfold call_service in after_checkpoint-Keeps u s _),
  )
