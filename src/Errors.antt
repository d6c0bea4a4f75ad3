-- ===== src/Errors.antt =====
-- The error types of sdk/src/error.rs, with the classification of errors.
-- An f64 timestamp in seconds is a number of milliseconds.
use durable_execution_rust_s.Prelude.{
  ℕ, String, ◌<>◌, str_eq, contains_text, show_nat, Bool, true, false, ◌&&◌, Option, none, some,
}

pub data TerminationReason : Type 0 where
  unhandled_error invocation_error execution_error checkpoint_failed : TerminationReason
  non_deterministic_execution step_interrupted callback_error : TerminationReason
  serialization_error size_limit_exceeded operation_terminated : TerminationReason
  retry_scheduled wait_scheduled callback_pending : TerminationReason
  context_validation_error lambda_timeout_approaching : TerminationReason

pub record AwsError : Type 0 where
  pub code : String
  pub message : String
  pub request_id : Option String

pub record ErrorObject : Type 0 where
  pub error_type : String
  pub error_message : String
  pub stack_trace : Option String

pub data DurableError : Type 0 where
  -- message, termination reason
  execution : String → TerminationReason → DurableError
  invocation : String → TerminationReason → DurableError
  -- message, is_retriable, aws_error
  checkpoint : String → Bool → Option AwsError → DurableError
  -- message, callback_id
  callback : String → Option String → DurableError
  -- message, operation_id
  non_deterministic : String → Option String → DurableError
  validation : String → DurableError
  ser_des : String → DurableError
  -- scheduled_timestamp
  suspend : Option ℕ → DurableError
  -- message, operation_id
  orphaned_child : String → String → DurableError
  -- message, error_type, stack_trace
  user_code : String → String → Option String → DurableError
  -- message, actual_size, max_size
  size_limit : String → Option ℕ → Option ℕ → DurableError
  -- message, retry_after_ms
  throttling : String → Option ℕ → DurableError
  -- message, resource_id
  resource_not_found : String → Option String → DurableError
  configuration : String → DurableError

-- `Result<A, DurableError>`.
pub data Result {ℓ} (A : Type ℓ) : Type ℓ where
  ok : A → Result A
  err : DurableError → Result A

infixl 5 ◌>>=◌
abbrev pub ◌>>=◌ {ℓ κ} : {A : Type ℓ} {B : Type κ} → Result A → (A → Result B) → Result B
ok a >>= f = f a
err e >>= f = err e

abbrev pub is_ok {ℓ} : {A : Type ℓ} → Result A → Bool
is_ok (ok a) = true
is_ok (err e) = false

unfoldable pub execution_failure : String → DurableError
execution_failure message = DurableError.execution message TerminationReason.execution_error

unfoldable pub is_retriable : DurableError → Bool
is_retriable (DurableError.checkpoint m retriable aws) = retriable
is_retriable _ = false

unfoldable pub is_suspend : DurableError → Bool
is_suspend (DurableError.suspend at) = true
is_suspend _ = false

unfoldable pub is_throttling : DurableError → Bool
is_throttling (DurableError.throttling m after) = true
is_throttling _ = false

unfoldable pub get_retry_after_ms : DurableError → Option ℕ
get_retry_after_ms (DurableError.throttling m after) = after
get_retry_after_ms _ = none

unfoldable pub is_invalid_checkpoint_token : DurableError → Bool
is_invalid_checkpoint_token (DurableError.checkpoint m retriable (some aws)) =
    str_eq aws.code "InvalidParameterValueException"
    && contains_text aws.message "Invalid checkpoint token"
is_invalid_checkpoint_token (DurableError.checkpoint m retriable none) =
    contains_text m "Invalid checkpoint token"
is_invalid_checkpoint_token _ = false

unfoldable pub new_error_object : String → String → ErrorObject
new_error_object error_type message = record {
  error_type = error_type;
  error_message = message;
  stack_trace = none;
}

size_detail : String → Option ℕ → Option ℕ → String
size_detail m (some actual) (some max_size) =
    m <> " (actual: " <> show_nat actual <> " bytes, max: " <> show_nat max_size <> " bytes)"
size_detail m _ _ = m

throttling_detail : String → Option ℕ → String
throttling_detail m (some ms) = m <> " (retry after: " <> show_nat ms <> "ms)"
throttling_detail m none = m

resource_detail : String → Option String → String
resource_detail m (some id) = m <> " (resource: " <> id <> ")"
resource_detail m none = m

-- `ErrorObject::from(&DurableError)`.
unfoldable pub error_object_from : DurableError → ErrorObject
unfolding new_error_object size_detail throttling_detail resource_detail
error_object_from (DurableError.execution m r) = new_error_object "ExecutionError" m
error_object_from (DurableError.invocation m r) = new_error_object "InvocationError" m
error_object_from (DurableError.checkpoint m r a) = new_error_object "CheckpointError" m
error_object_from (DurableError.callback m c) = new_error_object "CallbackError" m
error_object_from (DurableError.non_deterministic m o) =
    new_error_object "NonDeterministicExecutionError" m
error_object_from (DurableError.validation m) = new_error_object "ValidationError" m
error_object_from (DurableError.ser_des m) = new_error_object "SerDesError" m
error_object_from (DurableError.suspend t) =
    new_error_object "SuspendExecution" "Execution suspended"
error_object_from (DurableError.orphaned_child m o) = new_error_object "OrphanedChildError" m
error_object_from (DurableError.user_code m t s) = record {
  error_type = t;
  error_message = m;
  stack_trace = s;
}
error_object_from (DurableError.size_limit m a x) =
    new_error_object "SizeLimitExceededError" (size_detail m a x)
error_object_from (DurableError.throttling m t) =
    new_error_object "ThrottlingError" (throttling_detail m t)
error_object_from (DurableError.resource_not_found m i) =
    new_error_object "ResourceNotFoundError" (resource_detail m i)
error_object_from (DurableError.configuration m) = new_error_object "ConfigurationError" m

-- The replay of a stored error: `DurableError::UserCode` with the fields of the `ErrorObject`.
unfoldable pub user_code_from : ErrorObject → DurableError
user_code_from e = DurableError.user_code e.error_message e.error_type e.stack_trace

-- `{}` of an error.
unfoldable pub show_error : DurableError → String
show_error (DurableError.execution m r) = "Execution error: " <> m
show_error (DurableError.invocation m r) = "Invocation error: " <> m
show_error (DurableError.checkpoint m r a) = "Checkpoint error: " <> m
show_error (DurableError.callback m c) = "Callback error: " <> m
show_error (DurableError.non_deterministic m o) = "Non-deterministic execution: " <> m
show_error (DurableError.validation m) = "Validation error: " <> m
show_error (DurableError.ser_des m) = "Serialization error: " <> m
show_error (DurableError.suspend t) = "Suspend execution"
show_error (DurableError.orphaned_child m o) = "Orphaned child: " <> m
show_error (DurableError.user_code m t s) = "User code error: " <> m
show_error (DurableError.size_limit m a x) = "Size limit exceeded: " <> m
show_error (DurableError.throttling m t) = "Throttling: " <> m
show_error (DurableError.resource_not_found m i) = "Resource not found: " <> m
show_error (DurableError.configuration m) = "Configuration error: " <> m
