-- ===== src/State/Invariant.antt =====
-- Well-formed states of sdk/src/state/execution_state.rs: the cache files each operation under its
-- own id, once, and the replayed ids are a set.
use durable_execution_rust_s.Prelude.{
  String, ◌≡◌, refl, Bool, true, false, some, List, [], ◌∷◌, arith, eq_iff,
}
use durable_execution_rust_s.Prelude.Dict.{lookup, insert, lookup-insert}
use durable_execution_rust_s.Prelude.Sets.{Distinct, keys, insert-Distinct}
use durable_execution_rust_s.Operation.Record.{Operation}
use durable_execution_rust_s.Client.{InitialExecutionState}
use durable_execution_rust_s.State.Model.{
  Operations, ExecutionState, insert_all, CheckpointingMode, build, with_checkpointing_mode,
  with_batcher_and_mode,
}

-- Every entry stands under the id of its operation.
abbrev pub Filed : Operations → Type 0
Filed m = (id : String) (op : Operation) → lookup id m ≡ some op → op.operation_id ≡ id

pub record IsValid (s : ExecutionState) : Type 0 where
  pub filed : Filed s.operations
  pub one_each : Distinct (keys s.operations)
  pub replayed_once : Distinct s.replayed_operations

pub insert-Filed :
    (id : String) (op : Operation) (m : Operations)
    → op.operation_id ≡ id
    → Filed m
    → Filed (insert id op m)
insert-Filed id op m own filed j found e =
    ground (arith, eq_iff id j, lookup-insert id j op m, filed j found)

pub insert_all-Filed : (ops : List Operation) (m : Operations) → Filed m → Filed (insert_all ops m)
unfolding insert_all
insert_all-Filed [] m f = f
insert_all-Filed (op ∷ ops) m f =
    insert_all-Filed ops (insert op.operation_id op m) (insert-Filed op.operation_id op m refl f)

pub insert_all-Distinct :
    (ops : List Operation) (m : Operations) → Distinct (keys m) → Distinct (keys (insert_all ops m))
unfolding insert_all
insert_all-Distinct [] m d = d
insert_all-Distinct (op ∷ ops) m d =
    insert_all-Distinct ops (insert op.operation_id op m) (insert-Distinct op.operation_id op m d)

build-IsValid :
    (sender : Bool) (arn token : String) (initial : InitialExecutionState)
    (mode : CheckpointingMode)
    → IsValid (build sender arn token initial mode)
unfolding build lookup
build-IsValid sender arn token initial mode = record {
  filed = insert_all-Filed initial.operations [] (λ id op e. absurd cc);
  one_each = insert_all-Distinct initial.operations [] tt;
  replayed_once = tt;
}

-- Both constructors of the execution state make a well-formed state from any initial history.
pub new_state-IsValid :
    (arn token : String) (initial : InitialExecutionState) (mode : CheckpointingMode)
    → IsValid (with_checkpointing_mode arn token initial mode)
      × IsValid (with_batcher_and_mode arn token initial mode)
unfolding with_checkpointing_mode with_batcher_and_mode
new_state-IsValid arn token initial mode =
    (build-IsValid false arn token initial mode, build-IsValid true arn token initial mode)
