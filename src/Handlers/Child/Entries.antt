-- ===== src/Handlers/Child/Entries.antt =====
-- `child_handler` of sdk/src/handlers/child.rs: what is stored of a child context, and how it is answered.
use durable_execution_rust_s.Prelude.{
  String, ◌≡◌, sym, subst, ap, ◌∙◌, inl, inr, Bool, true, false, Option, none, some, arith,
}
use durable_execution_rust_s.Prelude.Dict.{lookup}
use durable_execution_rust_s.Errors.{ErrorObject, ok, err, user_code_from}
use durable_execution_rust_s.Operation.Kinds.{
  OperationType, OperationStatus, OperationAction, type_eq, status_eq,
}
use durable_execution_rust_s.Operation.Record.{Operation, get_result}
use durable_execution_rust_s.Operation.Update.{OperationUpdate}
use durable_execution_rust_s.Operation.Update
use durable_execution_rust_s.Client.{Client, Sender}
use durable_execution_rust_s.State.Model.{ExecutionState, get_checkpoint_result}
use durable_execution_rust_s.State.Cache.Entries.{Open, Started, Is, stores-Started}
use durable_execution_rust_s.State.Checkpoint.Caching.{Quiet, checkpoint-Stores}
use durable_execution_rust_s.State.Tracking.{track_replay}
use durable_execution_rust_s.Context.{DurableContext, create_child_context}
use durable_execution_rust_s.Serdes.{JsonSerDes}
use durable_execution_rust_s.Handlers.{OperationIdentifier}
use durable_execution_rust_s.Handlers.Updates.{apply_to-Is}
use durable_execution_rust_s.Handlers.Effects.{Handler}
use durable_execution_rust_s.Handlers.Child.{
  ChildConfig, create_start_update, check_type, without_result, with_result, with_children,
  by_status, resume, child_handler, failed_child,
}
use durable_execution_rust_s.Handlers.Child.Executed.{Begins}
use durable_execution_rust_s.Handlers.Child.Laws.{after_func}

-- What is stored of the child context has no result yet.
abbrev pub NoStaleResult : String → ExecutionState → Type 0
NoStaleResult id s = (op : Operation) → lookup id s.operations ≡ some op → get_result op ≡ none

-- The operations of the function leave the entry of the child context as it is.
abbrev pub LeavesEntry : {S T : Type 0} → String → (DurableContext → Handler S T) → Type 0
LeavesEntry {S} id func =
    (s : ExecutionState) (w : S)
    → lookup id (func (create_child_context id) s w).1.operations ≡ lookup id s.operations

with_children-Is :
    (b : Bool) (u : OperationUpdate) {id : String} {kind : OperationType} {action : OperationAction}
    {result : Option String} {error : Option ErrorObject}
    → Is u id kind action result error
    → Is (with_children b u) id kind action result error
unfolding with_children Update.with_context_options
with_children-Is true u is = record {
  same_id = is.same_id;
  same_type = is.same_type;
  same_action = is.same_action;
  same_result = is.same_result;
  same_error = is.same_error;
}
with_children-Is false u is = is

same_open :
    (op op' : Operation)
    → some op ≡ some op'
    → op.operation_type ≡ OperationType.context
    → get_result op ≡ none
    → (op'.operation_type ≡ OperationType.context) × (get_result op' ≡ none)
same_open op op' e kind r =
    subst (λ o. (o.operation_type ≡ OperationType.context) × (get_result o ≡ none))
      (let same : op ≡ op' = cc in same) (kind, r)

module _ {T S : Type 0} (serdes : JsonSerDes T) (client : Client S) (quiet : Quiet client)
    (send : Sender S) (func : DurableContext → Handler S T) (id : OperationIdentifier)
    (config : ChildConfig) where
  pub begins_Open :
      (s t : ExecutionState) (w x : S)
      → NoStaleResult id.operation_id s
      → Begins serdes client send func id config s w t x
      → Open id.operation_id OperationType.context t.operations
  unfolding create_start_update Update.start
  begins_Open s t w x fresh (inl (op, e, kind, same, world)) op' e' =
      same_open op op' (sym e ∙ ap (λ z. lookup id.operation_id z.operations) (sym same) ∙ e') kind
        (fresh op e)
  begins_Open s t w x fresh (inr (missing, accepted)) op' e' =
      let (op, e, kind, (begun, no_result)) =
        checkpoint-Stores client quiet send (create_start_update id config) true s t w x
          id.operation_id OperationType.context Started accepted
          (stores-Started (create_start_update id config) s (
            with_children-Is config.replay_children _
              (apply_to-Is id (Update.start id.operation_id OperationType.context)))) in
      same_open op op' (sym e ∙ e') kind no_result

  pub after_func-Open :
      (t : ExecutionState) (x : S)
      → LeavesEntry id.operation_id func
      → Open id.operation_id OperationType.context t.operations
      → Open id.operation_id OperationType.context
          (after_func serdes client send id config func t x).operations
  after_func-Open t x leaves free op e = free op (sym (leaves t x) ∙ e)

module _ {T S : Type 0} (serdes : JsonSerDes T) (client : Client S) (send : Sender S)
    (func : DurableContext → Handler S T) (id : OperationIdentifier) (config : ChildConfig) where
  pub answers_value :
      (op : Operation) (v : T) (text : String) (s : ExecutionState) (w : S)
      → lookup id.operation_id s.operations ≡ some op
      → op.operation_type ≡ OperationType.context
      → op.status ≡ OperationStatus.succeeded
      → get_result op ≡ some text
      → serdes.deserialize text ≡ inl v
      → config.replay_children ≡ false
      → child_handler serdes client send func id config s w
        ≡ (ok v, track_replay s id.operation_id, w)
  unfolding child_handler get_checkpoint_result resume check_type by_status with_result type_eq
      status_eq
  answers_value op v text s w e kind done read back plain = rw e (ground (arith, back))

  pub answers_error :
      (op : Operation) (error : ErrorObject) (s : ExecutionState) (w : S)
      → lookup id.operation_id s.operations ≡ some op
      → op.operation_type ≡ OperationType.context
      → op.status ≡ OperationStatus.failed
      → op.error ≡ some error
      → child_handler serdes client send func id config s w
        ≡ (err (user_code_from error), track_replay s id.operation_id, w)
  unfolding child_handler get_checkpoint_result resume check_type by_status without_result
      failed_child type_eq status_eq
  answers_error op error s w e kind failed is = rw e (ground arith)
