-- ===== src/State/Checkpoint/Caching.antt =====
-- `create_checkpoint` of sdk/src/state/execution_state.rs, with a service that sends no new state: an
-- accepted update is the one that the cache takes up.
use durable_execution_rust_s.Prelude.{
  String, ◌≡◌, refl, sym, ap, ◌∙◌, subst, Bool, true, false, Option, none, some, List,
  if◌then◌else◌,
}
use durable_execution_rust_s.Errors.{Result, ok, err}
use durable_execution_rust_s.Operation.Update.{OperationUpdate}
use durable_execution_rust_s.Client.{Client, Sender, CheckpointResponse}
use durable_execution_rust_s.State.Model.{ExecutionState, is_orphaned, is_eager}
use durable_execution_rust_s.State.Cache.{update_local_cache_from_update}
use durable_execution_rust_s.State.Cache.Entries.{Stores}
use durable_execution_rust_s.Operation.Kinds.{OperationType}
use durable_execution_rust_s.Operation.Record.{Operation}
use durable_execution_rust_s.State.Checkpoint.{
  Run, cache_response, after_checkpoint, call_service, forget, checkpoint_direct, unless_orphan,
  after_send, dispatch, create_checkpoint,
}

-- The service answers a checkpoint with a new token only.
abbrev pub Quiet : {S : Type 0} → Client S → Type 0
Quiet {S} client =
    (arn token : String) (updates : List OperationUpdate) (w : S) (r : CheckpointResponse)
    → (client.checkpoint arn token updates w).0 ≡ ok r
    → r.new_execution_state ≡ none

-- The cache of a successful run is the one the update makes.
Caches {ℓ} : {A : Type ℓ} {S : Type 0} → OperationUpdate → ExecutionState → Run A S → Type ℓ
Caches {A = A} u s r =
    (a : A) → r.0 ≡ ok a → r.1.operations ≡ (update_local_cache_from_update u s).operations

module _ {S : Type 0} (client : Client S) where
  after_checkpoint-Caches :
      (u : OperationUpdate) (s : ExecutionState) (a : Result CheckpointResponse × S)
      → ((r : CheckpointResponse) → a.0 ≡ ok r → r.new_execution_state ≡ none)
      → Caches u s (after_checkpoint client u s a)
  unfolding Caches after_checkpoint cache_response update_local_cache_from_update
  after_checkpoint-Caches u s (ok r, w) quiet a h = rw (quiet r refl) refl
  after_checkpoint-Caches u s (err e, w) quiet a h = absurd cc

  forget-Caches :
      (u : OperationUpdate) (s : ExecutionState) (r : Run CheckpointResponse S)
      → Caches u s r
      → Caches u s (forget client r)
  unfolding Caches forget
  forget-Caches u s (ok r, t, w) k a h = k r refl
  forget-Caches u s (err e, t, w) k a h = absurd cc

  after_send-Caches :
      (send : Sender S) (u : OperationUpdate) (s : ExecutionState)
      (a : Result (Unit {0}) × String × S)
      → Caches u s (after_send client send u s a)
  unfolding Caches after_send update_local_cache_from_update
  after_send-Caches send u s (ok a, token, w) b h = refl
  after_send-Caches send u s (err e, token, w) b h = absurd cc

  if_Caches {ℓ} :
      {A : Type ℓ} (b : Bool) (u : OperationUpdate) (s : ExecutionState) (r r' : Run A S)
      → Caches u s r
      → Caches u s r'
      → Caches u s (if b then r else r')
  if_Caches true u s r r' k k' = k
  if_Caches false u s r r' k k' = k'

  module _ (quiet : Quiet client) (send : Sender S) where
    direct_Caches :
        (u : OperationUpdate) (s : ExecutionState) (w : S)
        → Caches u s (checkpoint_direct client u s w)
    unfolding checkpoint_direct call_service
    direct_Caches u s w = forget-Caches u s _ (after_checkpoint-Caches u s _ (quiet _ _ _ w))

    dispatch-Caches :
        (u : OperationUpdate) (is_sync : Bool) (s : ExecutionState) (w : S)
        → Caches u s (dispatch client send u is_sync s w)
    unfolding dispatch
    dispatch-Caches u is_sync s w =
        if_Caches (is_eager s.checkpointing_mode) u s _ _ (direct_Caches u s w) (
          if_Caches s.has_checkpoint_sender u s _ _ (after_send-Caches send u s _)
            (direct_Caches u s w))

  unless_orphan-Caches :
      (p : Option String) (u : OperationUpdate) (s : ExecutionState) (w : S) (r : Run (Unit {0}) S)
      → Caches u s r
      → Caches u s (unless_orphan client p u s w r)
  unfolding unless_orphan
  unless_orphan-Caches none u s w r k = k
  unless_orphan-Caches (some parent) u s w r k =
      if_Caches (is_orphaned s (some parent)) u s _ _ (unfold Caches in λ a h. absurd cc) k

  -- When the service sends no new state, a successful checkpoint caches its update.
  pub create_checkpoint_caches :
      Quiet client
      → (send : Sender S) (u : OperationUpdate) (is_sync : Bool) (s : ExecutionState) (w : S)
      → (create_checkpoint client send u is_sync s w).0 ≡ ok tt
      → (create_checkpoint client send u is_sync s w).1.operations
        ≡ (update_local_cache_from_update u s).operations
  unfolding create_checkpoint Caches
  create_checkpoint_caches quiet send u is_sync s w h =
      unless_orphan-Caches u.parent_id u s w _ (dispatch-Caches quiet send u is_sync s w) tt h

module _ {S : Type 0} (client : Client S) where
  -- What the update leaves in the cache is there after a successful checkpoint.
  pub checkpoint-Stores :
      Quiet client
      → (send : Sender S) (u : OperationUpdate) (is_sync : Bool) (s s' : ExecutionState) (w w' : S)
        (id : String) (kind : OperationType) (P : Operation → Type 0)
      → create_checkpoint client send u is_sync s w ≡ (ok tt, s', w')
      → Stores id kind (update_local_cache_from_update u s).operations P
      → Stores id kind s'.operations P
  checkpoint-Stores quiet send u is_sync s s' w w' id kind P h stores =
      subst (λ m. Stores id kind m P)
        (sym (create_checkpoint_caches client quiet send u is_sync s w (ap (λ r. r.0) h))
          ∙ ap (λ r. r.1.operations) h)
        stores
