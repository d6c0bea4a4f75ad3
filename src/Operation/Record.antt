-- ===== src/Operation/Record.antt =====
-- `Operation` of sdk/src/operation.rs with its details, and how a result is read from it.
-- An i64 timestamp is an integer: a sign and a magnitude.
use durable_execution_rust_s.Prelude.{
  ℕ, String, Bool, true, false, Option, none, some, or_else, and_then, ◌≡◌, refl,
}
use durable_execution_rust_s.Errors.{ErrorObject}
use durable_execution_rust_s.Operation.Kinds.{OperationType, OperationStatus}

pub data ℤ : Type 0 where
  pos : ℕ → ℤ
  negsuc : ℕ → ℤ

pub record ExecutionDetails : Type 0 where
  pub input_payload : Option String

pub record StepDetails : Type 0 where
  pub result : Option String
  pub attempt : Option ℕ  -- u32
  pub next_attempt_timestamp : Option ℤ
  pub error : Option ErrorObject
  pub payload : Option String

pub record WaitDetails : Type 0 where
  pub scheduled_end_timestamp : Option ℤ

pub record CallbackDetails : Type 0 where
  pub callback_id : Option String
  pub result : Option String
  pub error : Option ErrorObject

pub record ChainedInvokeDetails : Type 0 where
  pub result : Option String
  pub error : Option ErrorObject

pub record ContextDetails : Type 0 where
  pub result : Option String
  pub replay_children : Option Bool
  pub error : Option ErrorObject

pub record Operation : Type 0 where
  pub operation_id : String
  pub operation_type : OperationType
  pub status : OperationStatus
  pub result : Option String
  pub error : Option ErrorObject
  pub parent_id : Option String
  pub name : Option String
  pub sub_type : Option String
  pub start_timestamp : Option ℤ
  pub end_timestamp : Option ℤ
  pub execution_details : Option ExecutionDetails
  pub step_details : Option StepDetails
  pub wait_details : Option WaitDetails
  pub callback_details : Option CallbackDetails
  pub chained_invoke_details : Option ChainedInvokeDetails
  pub context_details : Option ContextDetails

unfoldable pub new_operation : String → OperationType → Operation
new_operation id kind = record {
  operation_id = id;
  operation_type = kind;
  status = OperationStatus.started;
  result = none;
  error = none;
  parent_id = none;
  name = none;
  sub_type = none;
  start_timestamp = none;
  end_timestamp = none;
  execution_details = none;
  step_details = none;
  wait_details = none;
  callback_details = none;
  chained_invoke_details = none;
  context_details = none;
}

-- `Operation::is_completed`.
unfoldable pub is_completed_status : OperationStatus → Bool
is_completed_status OperationStatus.succeeded = true
is_completed_status OperationStatus.failed = true
is_completed_status OperationStatus.cancelled = true
is_completed_status OperationStatus.timed_out = true
is_completed_status OperationStatus.stopped = true
is_completed_status _ = false

unfoldable pub is_completed : Operation → Bool
unfolding is_completed_status
is_completed op = is_completed_status op.status

-- The result in the details that belong to the operation's type.
details_result : OperationType → Operation → Option String
details_result OperationType.step op = and_then op.step_details λ d. d.result
details_result OperationType.callback op = and_then op.callback_details λ d. d.result
details_result OperationType.invoke op = and_then op.chained_invoke_details λ d. d.result
details_result OperationType.context op = and_then op.context_details λ d. d.result
details_result _ op = none

-- The details first, then the legacy field.
unfoldable pub get_result : Operation → Option String
unfolding details_result
get_result op = or_else (details_result op.operation_type op) op.result

step_field {ℓ} : {A : Type ℓ} → (StepDetails → Option A) → OperationType → Operation → Option A
step_field f OperationType.step op = and_then op.step_details f
step_field f _ op = none

unfoldable pub get_retry_payload : Operation → Option String
unfolding step_field
get_retry_payload op = step_field (λ d. d.payload) op.operation_type op

unfoldable pub get_attempt : Operation → Option ℕ
unfolding step_field
get_attempt op = step_field (λ d. d.attempt) op.operation_type op

-- The kind of an operation decides where its result is.
details_result_same :
    (kind : OperationType) (op : Operation) (status : OperationStatus) (r : Option String)
    → details_result kind (record op { status = status; result = r }) ≡ details_result kind op
unfolding details_result
details_result_same OperationType.execution op status r = refl
details_result_same OperationType.step op status r = refl
details_result_same OperationType.wait op status r = refl
details_result_same OperationType.callback op status r = refl
details_result_same OperationType.invoke op status r = refl
details_result_same OperationType.context op status r = refl

or_else-none : (a b r : Option String) → or_else a b ≡ none → or_else a r ≡ r
or_else-none none b r h = refl
or_else-none (some a) b r h = absurd cc

-- The result that completes an operation is the one read from it, where it had none.
pub get_result-completed :
    (op : Operation) (status : OperationStatus) (r : Option String)
    → get_result op ≡ none
    → get_result (record op { status = status; result = r }) ≡ r
unfolding get_result
get_result-completed op status r h =
    rw (details_result_same op.operation_type op status r)
      (or_else-none (details_result op.operation_type op) op.result r h)

pub get_result-new :
    (id : String) (kind : OperationType) (status : OperationStatus) (r : Option String)
    (parent name : Option String)
    → get_result (record (new_operation id kind) {
      status = status;
      result = r;
      parent_id = parent;
      name = name;
    })
      ≡ r
unfolding get_result details_result new_operation
get_result-new id OperationType.execution status r parent name = refl
get_result-new id OperationType.step status r parent name = refl
get_result-new id OperationType.wait status r parent name = refl
get_result-new id OperationType.callback status r parent name = refl
get_result-new id OperationType.invoke status r parent name = refl
get_result-new id OperationType.context status r parent name = refl
