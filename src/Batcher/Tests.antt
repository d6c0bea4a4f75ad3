-- ===== src/Batcher/Tests.antt =====
-- Batches of requests of 102 bytes each.
use durable_execution_rust_s.Prelude.{ℕ, ◌≡◌, some, [], ◌∷◌, ◌++◌}
use durable_execution_rust_s.Operation.Kinds.{OperationType}
use durable_execution_rust_s.Operation.Update.{start}
use durable_execution_rust_s.Batcher.{CheckpointBatcherConfig}
use durable_execution_rust_s.Batcher.Collect.{
  Arrival, collect_batch, requests, Bounded, collect_batch-order, collect_batch-Bounded,
}

abbrev settings : CheckpointBatcherConfig
settings = record { max_batch_size_bytes = 150; max_batch_time_ms = 100; max_batch_operations = 10 }

abbrev at_time : ℕ → Arrival
at_time t = record {
  time = t;
  request = record { operation = start "op" OperationType.step; completion = some t };
}

collect_batch-order_example :
    (collect_batch settings 0 (at_time 1 ∷ at_time 2 ∷ at_time 3 ∷ [])).batch
      ++ requests (collect_batch settings 0 (at_time 1 ∷ at_time 2 ∷ at_time 3 ∷ [])).rest
    ≡ requests (at_time 1 ∷ at_time 2 ∷ at_time 3 ∷ [])
collect_batch-order_example =
    collect_batch-order settings 0 (at_time 1 ∷ at_time 2 ∷ at_time 3 ∷ [])

collect_batch-Bounded_example :
    Bounded settings (collect_batch settings 0 (at_time 1 ∷ at_time 2 ∷ [])).batch
collect_batch-Bounded_example = collect_batch-Bounded settings 0 (at_time 1) (at_time 2 ∷ [])
