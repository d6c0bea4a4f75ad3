-- ===== src/State/Cache/Entries.antt =====
-- `update_local_cache_from_update` of sdk/src/state/execution_state.rs: what is read of an operation
-- that an update has started or completed.
use durable_execution_rust_s.Prelude.{
  String, ◌≡◌, refl, sym, subst, ◌∙◌, Option, none, some, arith, eq_iff,
}
use durable_execution_rust_s.Prelude.Dict.{lookup, lookup-insert}
use durable_execution_rust_s.Errors.{ErrorObject}
use durable_execution_rust_s.Operation.Kinds.{OperationType, OperationStatus, OperationAction}
use durable_execution_rust_s.Operation.Record.{
  Operation, get_result, get_retry_payload, get_result-completed, get_result-new,
}
use durable_execution_rust_s.Operation.Update.{OperationUpdate}
use durable_execution_rust_s.State.Model.{ExecutionState, Operations}
use durable_execution_rust_s.State.Cache.{
  fresh, retried_details, carries_step, entry_after, update_local_cache_from_update,
}

-- What is stored of an operation, if anything, is of a type and has no result.
abbrev pub Open : String → OperationType → Operations → Type 0
Open id kind m =
    (op : Operation) → lookup id m ≡ some op → (op.operation_type ≡ kind) × (get_result op ≡ none)

-- The stored operation is of a type, and has a property.
abbrev pub Stores : String → OperationType → Operations → (Operation → Type 0) → Type 0
Stores id kind m P = (op : Operation) × (lookup id m ≡ some op) × (op.operation_type ≡ kind) × P op

-- An update of an operation, with its result and its error.
pub record Is (u : OperationUpdate) (id : String) (kind : OperationType) (action : OperationAction)
    (result : Option String) (error : Option ErrorObject) : Type 0 where
  pub same_id : u.operation_id ≡ id
  pub same_type : u.operation_type ≡ kind
  pub same_action : u.action ≡ action
  pub same_result : u.result ≡ result
  pub same_error : u.error ≡ error

found :
    (u : OperationUpdate) (s : ExecutionState)
    → lookup u.operation_id (update_local_cache_from_update u s).operations
      ≡ some (entry_after u (lookup u.operation_id s.operations))
unfolding update_local_cache_from_update
found u s = ground (
  arith,
  lookup-insert u.operation_id u.operation_id (entry_after u (lookup u.operation_id s.operations))
      s.operations,
  eq_iff u.operation_id u.operation_id,
)

abbrev pub Started : Operation → Type 0
Started op = (op.status ≡ OperationStatus.started) × (get_result op ≡ none)

abbrev pub Succeeded : Option String → Operation → Type 0
Succeeded r op = (op.status ≡ OperationStatus.succeeded) × (get_result op ≡ r)

start_entry :
    (u : OperationUpdate) (o : Option Operation)
    → u.action ≡ OperationAction.start
    → ((entry_after u o).operation_type ≡ u.operation_type) × Started (entry_after u o)
unfolding entry_after fresh
start_entry u none e = rw e (
  refl,
  (
    refl,
    get_result-new u.operation_id u.operation_type OperationStatus.started none u.parent_id u.name,
  ),
)
start_entry u (some op) e = rw e (
  refl,
  (
    refl,
    get_result-new u.operation_id u.operation_type OperationStatus.started none u.parent_id u.name,
  ),
)

succeed_entry :
    (u : OperationUpdate) (o : Option Operation)
    → u.action ≡ OperationAction.succeed
    → ((op : Operation)
        → o ≡ some op
        → (op.operation_type ≡ u.operation_type) × (get_result op ≡ none))
    → ((entry_after u o).operation_type ≡ u.operation_type) × Succeeded u.result (entry_after u o)
unfolding entry_after fresh
succeed_entry u none e free = rw e (
  refl,
  (
    refl,
    get_result-new u.operation_id u.operation_type OperationStatus.succeeded u.result u.parent_id
        u.name,
  ),
)
succeed_entry u (some op) e free = rw e (
  (free op refl).0,
  (refl, get_result-completed op OperationStatus.succeeded u.result (free op refl).1),
)

abbrev pub Failed : Option ErrorObject → Operation → Type 0
Failed e op = (op.status ≡ OperationStatus.failed) × (op.error ≡ e)

fail_entry :
    (u : OperationUpdate) (o : Option Operation)
    → u.action ≡ OperationAction.fail
    → ((op : Operation) → o ≡ some op → op.operation_type ≡ u.operation_type)
    → ((entry_after u o).operation_type ≡ u.operation_type) × Failed u.error (entry_after u o)
unfolding entry_after fresh
fail_entry u none e kind = rw e (refl, (refl, refl))
fail_entry u (some op) e kind = rw e (kind op refl, (refl, refl))

-- A step that waits for its next attempt, with the payload of that attempt.
abbrev pub Retried : String → Operation → Type 0
Retried payload op = (op.status ≡ OperationStatus.pending) × (get_retry_payload op ≡ some payload)

retry_entry :
    (u : OperationUpdate) (o : Option Operation) (payload : String)
    → u.action ≡ OperationAction.retry
    → u.operation_type ≡ OperationType.step
    → u.result ≡ some payload
    → ((op : Operation) → o ≡ some op → op.operation_type ≡ OperationType.step)
    → ((entry_after u o).operation_type ≡ OperationType.step) × Retried payload (entry_after u o)
unfolding entry_after fresh get_retry_payload retried_details carries_step
retry_entry u none payload e k r step = rw (e, r, k) (refl, (refl, refl))
retry_entry u (some op) payload e k r step =
    rw (e, r) (step op refl, (refl, rw (step op refl) refl))

module _ (u : OperationUpdate) (s : ExecutionState) {id : String} {kind : OperationType} where
  stored :
      {P : Operation → Type 0}
      → u.operation_id ≡ id
      → u.operation_type ≡ kind
      → (let op = entry_after u (lookup u.operation_id s.operations) in
          (op.operation_type ≡ u.operation_type) × P op)
      → Stores id kind (update_local_cache_from_update u s).operations P
  stored e k (k', p) = (
    entry_after u (lookup u.operation_id s.operations),
    subst
        (λ i.
          lookup i (update_local_cache_from_update u s).operations
          ≡ some (entry_after u (lookup u.operation_id s.operations)))
        e (found u s),
    k' ∙ k,
    p,
  )

  Open-at :
      u.operation_id ≡ id
      → u.operation_type ≡ kind
      → Open id kind s.operations
      → (op : Operation) → lookup u.operation_id s.operations ≡ some op
      → (op.operation_type ≡ u.operation_type) × (get_result op ≡ none)
  Open-at e k free op h = rw k (free op (subst (λ i. lookup i s.operations ≡ some op) e h))

  module _ {result : Option String} {error : Option ErrorObject} where
    pub stores-Started :
        Is u id kind OperationAction.start result error
        → Stores id kind (update_local_cache_from_update u s).operations Started
    stores-Started is = stored is.same_id is.same_type (start_entry u _ is.same_action)

    pub stores-Succeeded :
        Is u id kind OperationAction.succeed result error
        → Open id kind s.operations
        → Stores id kind (update_local_cache_from_update u s).operations (Succeeded result)
    stores-Succeeded is free =
        subst (λ r. Stores id kind (update_local_cache_from_update u s).operations (Succeeded r))
          is.same_result
          (stored is.same_id is.same_type
            (succeed_entry u _ is.same_action (Open-at is.same_id is.same_type free)))

    pub stores-Failed :
        Is u id kind OperationAction.fail result error
        → ((op : Operation) → lookup id s.operations ≡ some op → op.operation_type ≡ kind)
        → Stores id kind (update_local_cache_from_update u s).operations (Failed error)
    stores-Failed is kinds =
        subst (λ e. Stores id kind (update_local_cache_from_update u s).operations (Failed e))
          is.same_error
          (stored is.same_id is.same_type (
            fail_entry u _ is.same_action (λ op h.
              kinds op (subst (λ i. lookup i s.operations ≡ some op) is.same_id h)
              ∙ sym is.same_type)))

pub stores-Retried :
    (u : OperationUpdate) (s : ExecutionState) (id payload : String) (error : Option ErrorObject)
    → Is u id OperationType.step OperationAction.retry (some payload) error
    → ((op : Operation) → lookup id s.operations ≡ some op → op.operation_type ≡ OperationType.step)
    → Stores id OperationType.step (update_local_cache_from_update u s).operations (Retried payload)
stores-Retried u s id payload error is step =
    let (kind, retried) =
      retry_entry u (lookup u.operation_id s.operations) payload is.same_action is.same_type
        is.same_result
        (λ op h. step op (subst (λ i. lookup i s.operations ≡ some op) is.same_id h)) in
    subst
      (λ i.
        Stores i OperationType.step (update_local_cache_from_update u s).operations
          (Retried payload))
      is.same_id (entry_after u (lookup u.operation_id s.operations), found u s, kind, retried)
