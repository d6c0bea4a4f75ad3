-- ===== src/Handlers.antt =====
-- The handlers of the durable operations: sdk/src/handlers/.
pub mod Effects
pub mod Updates
pub mod Callback
pub mod Child
pub mod Condition
pub mod Invoke
pub mod Step
pub mod Wait
use durable_execution_rust_s.Prelude.{String, Option, none, some}
use durable_execution_rust_s.Operation.Update.{OperationUpdate}

-- `OperationIdentifier` of sdk/src/context.rs.
pub record OperationIdentifier : Type 0 where
  pub operation_id : String
  pub parent_id : Option String
  pub name : Option String

with_parent : Option String → OperationUpdate → OperationUpdate
with_parent none u = u
with_parent (some parent) u = record u { parent_id = some parent }

with_name : Option String → OperationUpdate → OperationUpdate
with_name none u = u
with_name (some name) u = record u { name = some name }

-- `OperationIdentifier::apply_to`.
unfoldable pub apply_to : OperationIdentifier → OperationUpdate → OperationUpdate
unfolding with_parent with_name
apply_to id u = with_name id.name (with_parent id.parent_id u)
