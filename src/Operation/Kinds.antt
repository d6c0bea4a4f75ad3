-- ===== src/Operation/Kinds.antt =====
-- The enums of sdk/src/operation.rs: operation types, statuses and actions.
use durable_execution_rust_s.Prelude.{ℕ, String, ◌==◌, Bool, true, false, ◌≡◌, refl, ◌↔◌, arith}

pub data OperationType : Type 0 where
  execution step wait callback invoke context : OperationType

pub data OperationStatus : Type 0 where
  started pending ready succeeded failed cancelled timed_out stopped : OperationStatus

pub data OperationAction : Type 0 where
  start succeed fail cancel retry : OperationAction

-- The discriminants of `#[repr(u8)]`; the derived `PartialEq` compares them.
type_code : OperationType → ℕ
type_code OperationType.execution = 0
type_code OperationType.step = 1
type_code OperationType.wait = 2
type_code OperationType.callback = 3
type_code OperationType.invoke = 4
type_code OperationType.context = 5

unfoldable pub type_eq : OperationType → OperationType → Bool
unfolding type_code
type_eq a b = type_code a == type_code b

status_code : OperationStatus → ℕ
status_code OperationStatus.started = 0
status_code OperationStatus.pending = 1
status_code OperationStatus.ready = 2
status_code OperationStatus.succeeded = 3
status_code OperationStatus.failed = 4
status_code OperationStatus.cancelled = 5
status_code OperationStatus.timed_out = 6
status_code OperationStatus.stopped = 7

unfoldable pub status_eq : OperationStatus → OperationStatus → Bool
unfolding status_code
status_eq a b = status_code a == status_code b

action_code : OperationAction → ℕ
action_code OperationAction.start = 0
action_code OperationAction.succeed = 1
action_code OperationAction.fail = 2
action_code OperationAction.cancel = 3
action_code OperationAction.retry = 4

unfoldable pub action_eq : OperationAction → OperationAction → Bool
unfolding action_code
action_eq a b = action_code a == action_code b

pub type_eq_iff : (a b : OperationType) → (type_eq a b ≡ true) ↔ (a ≡ b)
unfolding type_eq
type_eq_iff a b = ground arith

pub status_eq_iff : (a b : OperationStatus) → (status_eq a b ≡ true) ↔ (a ≡ b)
unfolding status_eq
status_eq_iff a b = ground arith

pub type_eq_refl : (a : OperationType) → type_eq a a ≡ true
type_eq_refl a = (type_eq_iff a a).1 refl

-- `{:?}` and `{}` of an operation type.
unfoldable pub show_type : OperationType → String
show_type OperationType.execution = "Execution"
show_type OperationType.step = "Step"
show_type OperationType.wait = "Wait"
show_type OperationType.callback = "Callback"
show_type OperationType.invoke = "Invoke"
show_type OperationType.context = "Context"

-- `{}` of a status.
unfoldable pub show_status : OperationStatus → String
show_status OperationStatus.started = "Started"
show_status OperationStatus.pending = "Pending"
show_status OperationStatus.ready = "Ready"
show_status OperationStatus.succeeded = "Succeeded"
show_status OperationStatus.failed = "Failed"
show_status OperationStatus.cancelled = "Cancelled"
show_status OperationStatus.timed_out = "TimedOut"
show_status OperationStatus.stopped = "Stopped"

unfoldable pub is_terminal : OperationStatus → Bool
is_terminal OperationStatus.started = false
is_terminal OperationStatus.pending = false
is_terminal OperationStatus.ready = false
is_terminal _ = true

unfoldable pub is_success : OperationStatus → Bool
is_success OperationStatus.succeeded = true
is_success _ = false

unfoldable pub is_failure : OperationStatus → Bool
is_failure OperationStatus.failed = true
is_failure OperationStatus.cancelled = true
is_failure OperationStatus.timed_out = true
is_failure OperationStatus.stopped = true
is_failure _ = false

unfoldable pub is_resumable : OperationStatus → Bool
is_resumable OperationStatus.started = true
is_resumable OperationStatus.pending = true
is_resumable OperationStatus.ready = true
is_resumable _ = false
