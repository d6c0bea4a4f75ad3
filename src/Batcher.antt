-- ===== src/Batcher.antt =====
-- The checkpoint batcher: sdk/src/state/batcher.rs. A request that waits for its completion carries
-- the number of its waiter.
pub mod Collect
pub mod Order
pub mod Process
mod Tests
use durable_execution_rust_s.Prelude.{ℕ, ◌+◌, String, byte_len, Bool, Option, none, some, is_some}
use durable_execution_rust_s.Errors.{ErrorObject}
use durable_execution_rust_s.Operation.Update.{OperationUpdate}

pub record CheckpointBatcherConfig : Type 0 where
  pub max_batch_size_bytes : ℕ
  pub max_batch_time_ms : ℕ
  pub max_batch_operations : ℕ

pub record CheckpointRequest : Type 0 where
  pub operation : OperationUpdate
  pub completion : Option ℕ

unfoldable pub is_sync : CheckpointRequest → Bool
is_sync r = is_some r.completion

text_size : Option String → ℕ
text_size none = 0
text_size (some t) = byte_len t

error_size : Option ErrorObject → ℕ
error_size none = 0
error_size (some e) = byte_len e.error_message + byte_len e.error_type

unfoldable pub estimated_size : CheckpointRequest → ℕ
unfolding text_size error_size
estimated_size r =
    let op = r.operation in
    100
    + byte_len op.operation_id
    + text_size op.result
    + error_size op.error
    + text_size op.parent_id
    + text_size op.name
