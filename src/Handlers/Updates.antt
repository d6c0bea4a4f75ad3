-- ===== src/Handlers/Updates.antt =====
-- The updates that the handlers of sdk/src/handlers/ build with `OperationIdentifier::apply_to`.
use durable_execution_rust_s.Prelude.{String, Option, none, some, arith}
use durable_execution_rust_s.Errors.{ErrorObject}
use durable_execution_rust_s.Operation.Kinds.{OperationType, OperationAction}
use durable_execution_rust_s.Operation.Update.{OperationUpdate}
use durable_execution_rust_s.State.Cache.Entries.{Is}
use durable_execution_rust_s.Handlers.{OperationIdentifier, with_parent, with_name, apply_to}

with_parent-Is :
    (parent : Option String) (u : OperationUpdate)
    → Is (with_parent parent u) u.operation_id u.operation_type u.action u.result u.error
unfolding with_parent
with_parent-Is none u = ground arith
with_parent-Is (some parent) u = ground arith

with_name-Is :
    (name : Option String) (u : OperationUpdate) {id : String} {kind : OperationType}
    {action : OperationAction} {result : Option String} {error : Option ErrorObject}
    → Is u id kind action result error
    → Is (with_name name u) id kind action result error
unfolding with_name
with_name-Is none u is = is
with_name-Is (some name) u is = record {
  same_id = is.same_id;
  same_type = is.same_type;
  same_action = is.same_action;
  same_result = is.same_result;
  same_error = is.same_error;
}

-- The parent and the name are all that the identifier changes.
pub apply_to-Is :
    (id : OperationIdentifier) (u : OperationUpdate)
    → Is (apply_to id u) u.operation_id u.operation_type u.action u.result u.error
unfolding apply_to
apply_to-Is id u = with_name-Is id.name _ (with_parent-Is id.parent_id u)
