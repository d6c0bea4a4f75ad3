-- ===== src/State/Cache.antt =====
-- The local operation cache after a checkpoint: `update_local_cache_from_update` and
-- `update_local_cache_from_response` of sdk/src/state/execution_state.rs.
pub mod Entries
pub mod Laws
pub mod Retries
mod Tests
use durable_execution_rust_s.Prelude.{
  ℕ, ◌+◌, ◌%◌, ◌^◌, String, Bool, true, false, Option, none, some, is_some, unwrap_or, or_else,
  ◌||◌, if◌then◌else◌,
}
use durable_execution_rust_s.Prelude.Dict.{lookup, insert}
use durable_execution_rust_s.Operation.Kinds.{OperationStatus, OperationAction}
use durable_execution_rust_s.Operation.Record.{Operation, StepDetails, new_operation}
use durable_execution_rust_s.Operation.Update.{OperationUpdate}
use durable_execution_rust_s.Client.{NewExecutionState}
use durable_execution_rust_s.State.Model.{ExecutionState, Operations, insert_all}

-- A new entry: `Operation::new` with the parent and the name of the update.
unfoldable pub fresh : OperationUpdate → Operation
unfolding new_operation
fresh u = record (new_operation u.operation_id u.operation_type) {
  parent_id = u.parent_id;
  name = u.name;
}

empty_step_details : StepDetails
empty_step_details = record {
  result = none;
  attempt = none;
  next_attempt_timestamp = none;
  error = none;
  payload = none;
}

-- `op.step_details.get_or_insert(..)`, then the payload and the attempt counter, a u32 whose addition
-- wraps around as in a release build; in a debug build it panics.
retried_details : OperationUpdate → Option StepDetails → StepDetails
unfolding empty_step_details
retried_details u found =
    let d = unwrap_or found empty_step_details in
    record d {
      attempt = some ((unwrap_or d.attempt 0 + 1) % 2 ^ 32);
      payload = if is_some u.result then u.result else d.payload;
    }

carries_step : OperationUpdate → Bool
carries_step u = is_some u.result || is_some u.step_options

-- What the update does to an operation that is in the cache.
on_known : OperationAction → OperationUpdate → Operation → Operation
unfolding fresh retried_details carries_step
on_known OperationAction.start u op = fresh u
on_known OperationAction.succeed u op = record op {
  status = OperationStatus.succeeded;
  result = u.result;
}
on_known OperationAction.fail u op = record op { status = OperationStatus.failed; error = u.error }
on_known OperationAction.cancel u op = record op { status = OperationStatus.cancelled }
on_known OperationAction.retry u op = record op {
  status = OperationStatus.pending;
  step_details =
      if carries_step u then some (retried_details u op.step_details) else op.step_details;
  error = if is_some u.error then u.error else op.error;
}

-- The entry for an operation that is not in the cache.
on_unknown : OperationAction → OperationUpdate → Operation
unfolding fresh empty_step_details carries_step
on_unknown OperationAction.start u = fresh u
on_unknown OperationAction.succeed u = record (fresh u) {
  status = OperationStatus.succeeded;
  result = u.result;
}
on_unknown OperationAction.fail u = record (fresh u) {
  status = OperationStatus.failed;
  error = u.error;
}
on_unknown OperationAction.cancel u = record (fresh u) { status = OperationStatus.cancelled }
on_unknown OperationAction.retry u = record (fresh u) {
  status = OperationStatus.pending;
  error = u.error;
  step_details =
      if carries_step u
      then some (record empty_step_details { attempt = some 1; payload = u.result })
      else none;
}

pub entry_after : OperationUpdate → Option Operation → Operation
unfolding on_known on_unknown
entry_after u none = on_unknown u.action u
entry_after u (some op) = on_known u.action u op

cache_after : OperationUpdate → Operations → Operations
unfolding entry_after
cache_after u m = insert u.operation_id (entry_after u (lookup u.operation_id m)) m

unfoldable pub update_local_cache_from_update : OperationUpdate → ExecutionState → ExecutionState
unfolding cache_after
update_local_cache_from_update u s = record s { operations = cache_after u s.operations }

unfoldable pub update_local_cache_from_response :
    NewExecutionState → ExecutionState → ExecutionState
update_local_cache_from_response new s = record s {
  operations = insert_all new.operations s.operations;
}
