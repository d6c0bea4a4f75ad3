-- ===== src/State/Model.antt =====
-- `ExecutionState`, its construction and its accessors, and `ReplayStatus`
-- (sdk/src/state/execution_state.rs, sdk/src/state/replay_status.rs, `CheckpointingMode` of
-- sdk/src/config.rs). Locks and atomics hold plain values. The checkpoint sender is present or not.
use durable_execution_rust_s.Prelude.{
  String, Bool, true, false, Option, none, some, is_some, and_then, unwrap_or, List, [], ◌∷◌, find,
  is_empty, if◌then◌else◌,
}
use durable_execution_rust_s.Prelude.Dict.{lookup, insert, member, add}
use mathlib.Core.Option
use durable_execution_rust_s.Operation.Kinds.{OperationType, type_eq}
use durable_execution_rust_s.Operation.Record.{Operation}
use durable_execution_rust_s.Client.{InitialExecutionState}
use durable_execution_rust_s.CheckpointedResult.{CheckpointedResult}

pub data ReplayStatus : Type 0 where
  replay new : ReplayStatus

unfoldable pub is_replay_status : ReplayStatus → Bool
is_replay_status ReplayStatus.replay = true
is_replay_status ReplayStatus.new = false

pub data CheckpointingMode : Type 0 where
  eager batched optimistic : CheckpointingMode

unfoldable pub is_eager : CheckpointingMode → Bool
is_eager CheckpointingMode.eager = true
is_eager _ = false

-- `HashMap<String, Operation>`.
abbrev pub Operations : Type 0
Operations = List (String × Operation)

pub record ExecutionState : Type 0 where
  pub durable_execution_arn : String
  pub checkpoint_token : String
  pub operations : Operations
  pub replay_status : ReplayStatus
  pub replayed_operations : List String
  pub next_marker : Option String
  pub done_parents : List String
  pub has_checkpoint_sender : Bool
  pub execution_operation : Option Operation
  pub checkpointing_mode : CheckpointingMode

-- Insertion of a list of operations under their ids, in order.
unfoldable pub insert_all : List Operation → Operations → Operations
insert_all [] m = m
insert_all (op ∷ ops) m = insert_all ops (insert op.operation_id op m)

-- `ExecutionState::with_checkpointing_mode`, and `with_batcher_and_mode` with a sender.
unfoldable pub build :
    Bool → String → String → InitialExecutionState → CheckpointingMode → ExecutionState
unfolding insert_all type_eq
build sender arn token initial mode = record {
  durable_execution_arn = arn;
  checkpoint_token = token;
  operations = insert_all initial.operations [];
  replay_status =
      if is_empty (insert_all initial.operations []) then ReplayStatus.new else ReplayStatus.replay;
  replayed_operations = [];
  next_marker = initial.next_marker;
  done_parents = [];
  has_checkpoint_sender = sender;
  execution_operation =
      find (λ op. type_eq op.operation_type OperationType.execution) initial.operations;
  checkpointing_mode = mode;
}

unfoldable pub with_checkpointing_mode :
    String → String → InitialExecutionState → CheckpointingMode → ExecutionState
unfolding build
with_checkpointing_mode = build false

unfoldable pub with_batcher_and_mode :
    String → String → InitialExecutionState → CheckpointingMode → ExecutionState
unfolding build
with_batcher_and_mode = build true

unfoldable pub get_original_input_raw : ExecutionState → Option String
get_original_input_raw s =
    and_then s.execution_operation λ op. and_then op.execution_details λ d. d.input_payload

unfoldable pub execution_operation_id : ExecutionState → Option String
execution_operation_id s = Option.map (λ op. op.operation_id) s.execution_operation

unfoldable pub get_checkpoint_result : ExecutionState → String → CheckpointedResult
get_checkpoint_result s id = record { operation = lookup id s.operations }

unfoldable pub add_operation : ExecutionState → Operation → ExecutionState
add_operation s op = record s { operations = insert op.operation_id op s.operations }

update_entry : String → (Operation → Operation) → Option Operation → Operations → Operations
update_entry id f none m = m
update_entry id f (some op) m = insert id (f op) m

unfoldable pub update_operation : ExecutionState → String → (Operation → Operation) → ExecutionState
unfolding update_entry
update_operation s id f = record s {
  operations = update_entry id f (lookup id s.operations) s.operations;
}

unfoldable pub has_operation : ExecutionState → String → Bool
has_operation s id = is_some (lookup id s.operations)

unfoldable pub mark_parent_done : ExecutionState → String → ExecutionState
mark_parent_done s id = record s { done_parents = add id s.done_parents }

unfoldable pub is_parent_done : ExecutionState → String → Bool
is_parent_done s id = member id s.done_parents

unfoldable pub is_orphaned : ExecutionState → Option String → Bool
unfolding is_parent_done
is_orphaned s none = false
is_orphaned s (some id) = is_parent_done s id

children_of_context : OperationType → Operation → Bool
children_of_context OperationType.context op =
    unwrap_or (and_then op.context_details λ d. d.replay_children) false
children_of_context _ op = false

unfoldable pub has_replay_children : ExecutionState → String → Bool
unfolding children_of_context
has_replay_children s id =
    unwrap_or (Option.map (λ op. children_of_context op.operation_type op) (lookup id s.operations))
      false
