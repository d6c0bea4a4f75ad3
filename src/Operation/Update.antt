-- ===== src/Operation/Update.antt =====
-- `OperationUpdate` of sdk/src/operation.rs and its builders.
use durable_execution_rust_s.Prelude.{ℕ, String, Bool, Option, none, some}
use durable_execution_rust_s.Errors.{ErrorObject}
use durable_execution_rust_s.Operation.Kinds.{OperationType, OperationAction}

pub record WaitOptions : Type 0 where
  pub wait_seconds : ℕ  -- u64

pub record StepOptions : Type 0 where
  pub next_attempt_delay_seconds : Option ℕ

pub record CallbackOptions : Type 0 where
  pub timeout_seconds : Option ℕ
  pub heartbeat_timeout_seconds : Option ℕ

pub record ChainedInvokeOptions : Type 0 where
  pub function_name : String
  pub tenant_id : Option String

pub record ContextOptions : Type 0 where
  pub replay_children : Option Bool

pub record OperationUpdate : Type 0 where
  pub operation_id : String
  pub action : OperationAction
  pub operation_type : OperationType
  pub result : Option String
  pub error : Option ErrorObject
  pub parent_id : Option String
  pub name : Option String
  pub sub_type : Option String
  pub wait_options : Option WaitOptions
  pub step_options : Option StepOptions
  pub callback_options : Option CallbackOptions
  pub chained_invoke_options : Option ChainedInvokeOptions
  pub context_options : Option ContextOptions

-- `OperationUpdate::start`.
unfoldable pub start : String → OperationType → OperationUpdate
start id kind = record {
  operation_id = id;
  action = OperationAction.start;
  operation_type = kind;
  result = none;
  error = none;
  parent_id = none;
  name = none;
  sub_type = none;
  wait_options = none;
  step_options = none;
  callback_options = none;
  chained_invoke_options = none;
  context_options = none;
}

unfoldable pub start_wait : String → ℕ → OperationUpdate
unfolding start
start_wait id seconds = record (start id OperationType.wait) {
  wait_options = some (record { wait_seconds = seconds });
}

unfoldable pub succeed : String → OperationType → Option String → OperationUpdate
unfolding start
succeed id kind result = record (start id kind) {
  action = OperationAction.succeed;
  result = result;
}

unfoldable pub fail : String → OperationType → ErrorObject → OperationUpdate
unfolding start
fail id kind error = record (start id kind) { action = OperationAction.fail; error = some error }

unfoldable pub cancel : String → OperationType → OperationUpdate
unfolding start
cancel id kind = record (start id kind) { action = OperationAction.cancel }

unfoldable pub retry : String → OperationType → Option String → Option ℕ → OperationUpdate
unfolding start
retry id kind payload delay = record (start id kind) {
  action = OperationAction.retry;
  result = payload;
  step_options = some (record { next_attempt_delay_seconds = delay });
}

unfoldable pub retry_with_error : String → OperationType → ErrorObject → Option ℕ → OperationUpdate
unfolding start
retry_with_error id kind error delay = record (start id kind) {
  action = OperationAction.retry;
  error = some error;
  step_options = some (record { next_attempt_delay_seconds = delay });
}

unfoldable pub with_context_options : OperationUpdate → Option Bool → OperationUpdate
with_context_options u replay_children = record u {
  context_options = some (record { replay_children = replay_children });
}

unfoldable pub with_sub_type : OperationUpdate → String → OperationUpdate
with_sub_type u sub_type = record u { sub_type = some sub_type }

unfoldable pub with_chained_invoke_options :
    OperationUpdate → String → Option String → OperationUpdate
with_chained_invoke_options u function_name tenant_id = record u {
  chained_invoke_options = some (record { function_name = function_name; tenant_id = tenant_id });
}
