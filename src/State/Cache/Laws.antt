-- ===== src/State/Cache/Laws.antt =====
-- `update_local_cache_from_update` of sdk/src/state/execution_state.rs: the entry of the update's
-- operation and the other entries.
use durable_execution_rust_s.Prelude.{
  suc, String, ◌≡◌, ◌≢◌, Option, none, some, is_some, arith, eq_iff, str_eq, if◌then◌else◌, length,
}
use durable_execution_rust_s.Prelude.Dict.{lookup, lookup-insert, length-insert}
use durable_execution_rust_s.Prelude.Sets.{insert-Distinct}
use durable_execution_rust_s.Operation.Kinds.{OperationStatus, OperationAction}
use durable_execution_rust_s.Operation.Record.{Operation}
use durable_execution_rust_s.Operation.Update.{OperationUpdate}
use durable_execution_rust_s.State.Model.{ExecutionState}
use durable_execution_rust_s.State.Invariant.{
  IsValid, insert-Filed, insert_all-Filed, insert_all-Distinct,
}
use durable_execution_rust_s.State.Cache.{
  entry_after, update_local_cache_from_update, update_local_cache_from_response,
}
use durable_execution_rust_s.Client.{NewExecutionState}

-- The status that an action leads to.
abbrev pub status_after : OperationAction → OperationStatus
status_after OperationAction.start = OperationStatus.started
status_after OperationAction.succeed = OperationStatus.succeeded
status_after OperationAction.fail = OperationStatus.failed
status_after OperationAction.cancel = OperationStatus.cancelled
status_after OperationAction.retry = OperationStatus.pending

entry_status :
    (u : OperationUpdate) (o : Option Operation) → (entry_after u o).status ≡ status_after u.action
unfolding entry_after
entry_status u none = ground arith
entry_status u (some op) = ground arith

entry_id :
    (u : OperationUpdate) (o : Option Operation)
    → ((op : Operation) → o ≡ some op → op.operation_id ≡ u.operation_id)
    → (entry_after u o).operation_id ≡ u.operation_id
unfolding entry_after
entry_id u none h = ground arith
entry_id u (some op) h = ground (arith, h op)

pub cache_lookup :
    (u : OperationUpdate) (s : ExecutionState) (j : String)
    → lookup j (update_local_cache_from_update u s).operations ≡ (
        if str_eq u.operation_id j
        then some (entry_after u (lookup u.operation_id s.operations))
        else lookup j s.operations)
unfolding update_local_cache_from_update
cache_lookup u s j = lookup-insert u.operation_id j _ s.operations

-- After an update its operation is in the cache with the status that the action stands for, and
-- the entry of every other operation is what it was.
pub update_sets_status :
    (u : OperationUpdate) (s : ExecutionState)
    → ((op : Operation) × (lookup u.operation_id (update_local_cache_from_update u s).operations
          ≡ some op)
        × (op.status ≡ status_after u.action))
      × ((j : String)
          → j ≢ u.operation_id
          → lookup j (update_local_cache_from_update u s).operations ≡ lookup j s.operations)
update_sets_status u s = (
  (
    entry_after u (lookup u.operation_id s.operations),
    ground (arith, cache_lookup u s u.operation_id, eq_iff u.operation_id u.operation_id),
    entry_status u (lookup u.operation_id s.operations),
  ),
  λ j ne. ground (arith, cache_lookup u s j, eq_iff u.operation_id j),
)

-- An update keeps a well-formed state well formed and adds an entry exactly when the operation is
-- not in the cache.
pub update-IsValid :
    (u : OperationUpdate) (s : ExecutionState)
    → IsValid s
    → IsValid (update_local_cache_from_update u s)
      × (length (update_local_cache_from_update u s).operations ≡ (
          if is_some (lookup u.operation_id s.operations)
          then length s.operations
          else suc (length s.operations)))
unfolding update_local_cache_from_update
update-IsValid u s v = (
  record {
    filed =
        insert-Filed u.operation_id _ s.operations
          (entry_id u (lookup u.operation_id s.operations) (v.filed u.operation_id)) v.filed;
    one_each = insert-Distinct u.operation_id _ s.operations v.one_each;
    replayed_once = v.replayed_once;
  },
  length-insert u.operation_id _ s.operations,
)

pub response-IsValid :
    (new : NewExecutionState) (s : ExecutionState)
    → IsValid s
    → IsValid (update_local_cache_from_response new s)
unfolding update_local_cache_from_response
response-IsValid new s v = record {
  filed = insert_all-Filed new.operations s.operations v.filed;
  one_each = insert_all-Distinct new.operations s.operations v.one_each;
  replayed_once = v.replayed_once;
}
