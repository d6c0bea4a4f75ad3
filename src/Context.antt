-- ===== src/Context.antt =====
-- `OperationIdGenerator`, `generate_operation_id` and the child contexts of sdk/src/context.rs. The
-- hash of a base id and a counter (blake2b) is a parameter. A context is its parent id and its
-- generator: what the handlers make of it.
use durable_execution_rust_s.Prelude.{ℕ, ◌+◌, ◌%◌, ◌^◌, String, Option, some}

pub record OperationIdGenerator : Type 0 where
  pub base_id : String
  pub step_counter : ℕ  -- u64

unfoldable pub new_generator : String → OperationIdGenerator
new_generator base = record { base_id = base; step_counter = 0 }

unfoldable pub with_counter : String → ℕ → OperationIdGenerator
with_counter base counter = record { base_id = base; step_counter = counter }

module _ (generate_operation_id : String → ℕ → String) where
  unfoldable pub id_for_counter : OperationIdGenerator → ℕ → String
  id_for_counter g counter = generate_operation_id g.base_id counter

  -- `next_id`, whose `fetch_add` wraps around.
  unfoldable pub next_id : OperationIdGenerator → String × OperationIdGenerator
  next_id g = (
    generate_operation_id g.base_id g.step_counter,
    record g { step_counter = (g.step_counter + 1) % 2 ^ 64 },
  )

pub record DurableContext : Type 0 where
  pub parent_id : Option String
  pub id_generator : OperationIdGenerator

unfoldable pub create_child_context : String → DurableContext
unfolding new_generator
create_child_context id = record { parent_id = some id; id_generator = new_generator id }
