-- ===== src/Client.antt =====
-- What the SDK exchanges with the durable execution service (sdk/src/client.rs, sdk/src/lambda.rs),
-- and the services that the execution state uses. The network is a parameter: the state `S` of the
-- world outside, and its answers.
use durable_execution_rust_s.Prelude.{String, Bool, Option, List}
use durable_execution_rust_s.Errors.{Result}
use durable_execution_rust_s.Operation.Record.{Operation}
use durable_execution_rust_s.Operation.Update.{OperationUpdate}

pub record NewExecutionState : Type 0 where
  pub operations : List Operation
  pub next_marker : Option String

pub record CheckpointResponse : Type 0 where
  pub checkpoint_token : String
  pub new_execution_state : Option NewExecutionState

pub record GetOperationsResponse : Type 0 where
  pub operations : List Operation
  pub next_marker : Option String

pub record InitialExecutionState : Type 0 where
  pub operations : List Operation
  pub next_marker : Option String

-- `DurableServiceClient`: `checkpoint arn token updates` and `get_operations arn marker`.
pub record Client (S : Type 0) : Type 0 where
  pub checkpoint : String → String → List OperationUpdate → S → Result CheckpointResponse × S
  pub get_operations : String → String → S → Result GetOperationsResponse × S

-- `CheckpointSender::checkpoint(operation, is_sync)` with the batcher behind it. It reads and writes
-- the checkpoint token that the batcher shares with the execution state.
abbrev pub Sender : Type 0 → Type 0
Sender S = OperationUpdate → Bool → String → S → Result (Unit {0}) × String × S
