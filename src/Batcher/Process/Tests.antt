-- ===== src/Batcher/Process/Tests.antt =====
-- A batch of a child, its context's START, an unrelated step and the completion of the execution.
use durable_execution_rust_s.Prelude.{
  ℕ, suc, ◌<◌, ◌≡◌, refl, sym, subst, String, str_eq, eq_iff, if◌then◌else◌, Bool, true, false,
  none, some, List, [], ◌∷◌, map, arith,
}
use durable_execution_rust_s.Prelude.Tally.{tally}
use durable_execution_rust_s.Prelude.Dict.{lookup, insert}
use durable_execution_rust_s.Errors.{DurableError, ok, err}
use durable_execution_rust_s.Operation.Kinds.{OperationType, type_eq, action_eq}
use durable_execution_rust_s.Operation.Update.{OperationUpdate, start, succeed}
use durable_execution_rust_s.Client.{Client, CheckpointResponse}
use durable_execution_rust_s.Throttle.{Outcome, with_retry}
use durable_execution_rust_s.Batcher.{CheckpointRequest}
use durable_execution_rust_s.Batcher.Order.{Ordering, compare, parent_of, sort_checkpoint_batch}
use durable_execution_rust_s.Batcher.Order.Laws.{
  Acyclic, CompletionsLast, sort_checkpoint_batch_ends,
}
use durable_execution_rust_s.Batcher.Order.Overtaking.{child_stays_first}
use durable_execution_rust_s.Batcher.Process.{CheckpointBatcher, process_batch}
use durable_execution_rust_s.Batcher.Process.Laws.{Answered, process_batch_ends}

abbrev waiting : OperationUpdate → ℕ → CheckpointRequest
waiting u n = record { operation = u; completion = some n }

abbrev child : CheckpointRequest
child = waiting (record (start "child" OperationType.step) { parent_id = some "parent" }) 1

abbrev parent : CheckpointRequest
parent = waiting (start "parent" OperationType.context) 2

abbrev other : CheckpointRequest
other = record { operation = start "other" OperationType.step; completion = none }

abbrev finished : CheckpointRequest
finished = waiting (succeed "exec" OperationType.execution none) 3

abbrev batch : List CheckpointRequest
batch = finished ∷ child ∷ parent ∷ []

abbrev level : String → ℕ
level id = if str_eq id "child" then 1 else 0

only_parent :
    (b : Bool) (id parent_id : String)
    → str_eq id "child" ≡ b
    → parent_of batch id ≡ some parent_id
    → level parent_id < level id
unfolding parent_of lookup insert start succeed
only_parent true id parent_id e h =
    subst (λ x. parent_of batch x ≡ some parent_id → level parent_id < level x)
      (sym ((eq_iff id "child").0 e))
      (λ q. let same : "parent" ≡ parent_id = cc in subst (λ y. level y < 1) same (omega arith)) h
only_parent false id parent_id e h = ground (arith, eq_iff "child" id, eq_iff id "child")

batch-Acyclic : Acyclic 2 batch level
batch-Acyclic = record {
  falls = λ id parent_id h. only_parent (str_eq id "child") id parent_id refl h;
  enough = λ id. ground arith;
}

sorted_batch : sort_checkpoint_batch 2 batch ≡ some (parent ∷ child ∷ finished ∷ [])
unfolding sort_checkpoint_batch compare start succeed type_eq action_eq
sorted_batch = refl

sort_checkpoint_batch_ends_example :
    (sorted : List CheckpointRequest) × (sort_checkpoint_batch 2 batch ≡ some sorted)
    × ((w : CheckpointRequest → ℕ) → tally w sorted ≡ tally w batch)
    × CompletionsLast sorted
sort_checkpoint_batch_ends_example = sort_checkpoint_batch_ends 2 batch level batch-Acyclic

child_stays_first_example :
    (compare 2 (child ∷ other ∷ parent ∷ []) (0, child) (1, other) ≡ some Ordering.less)
    × (compare 2 (child ∷ other ∷ parent ∷ []) (1, other) (2, parent) ≡ some Ordering.less)
    × (compare 2 (child ∷ other ∷ parent ∷ []) (0, child) (2, parent) ≡ some Ordering.greater)
    × (sort_checkpoint_batch 2 (child ∷ other ∷ parent ∷ []) ≡ some (child ∷ other ∷ parent ∷ []))
unfolding start
child_stays_first_example =
    child_stays_first 2 child other parent refl refl refl refl refl refl refl
      (λ e. ground (arith, eq_iff "child" "parent")) (λ e. ground (arith, eq_iff "other" "parent"))
      (λ e. ground (arith, eq_iff "child" "other"))

-- The service counts its calls.
abbrev accepting : Client ℕ
accepting = record {
  checkpoint = λ arn token updates calls.
      (ok (record { checkpoint_token = "next"; new_execution_state = none }), suc calls);
  get_operations = λ arn marker calls. (err (DurableError.validation "no history"), calls);
}

abbrev batcher : CheckpointBatcher ℕ
batcher = record {
  checkpoint_token = "first";
  initial_token_consumed = false;
  answers = [];
  service = 0;
}

process_batch_ends_example :
    (sorted : List CheckpointRequest) × (o : Outcome ℕ CheckpointResponse) × (b' : CheckpointBatcher
      ℕ)
    × (sort_checkpoint_batch 2 batch ≡ some sorted)
    × (with_retry
          (accepting.checkpoint "arn" batcher.checkpoint_token (map (λ q. q.operation) sorted))
          batcher.service
        ≡ some o)
    × (process_batch accepting "arn" 2 batch batcher ≡ some b')
    × Answered batch batcher b' o
process_batch_ends_example =
    process_batch_ends accepting "arn" 2 level finished (child ∷ parent ∷ []) batcher batch-Acyclic
