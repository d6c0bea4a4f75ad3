-- ===== src/Handlers/Callback/Replays.antt =====
-- A callback that `callback_handler` of sdk/src/handlers/callback.rs creates is the callback of every
-- later run.
use durable_execution_rust_s.Prelude.{
  String, ◌≡◌, refl, ap, ◌∙◌, none, some, and_then, find, str_eq,
}
use durable_execution_rust_s.Prelude.Dict.{lookup}
use durable_execution_rust_s.Prelude.Sets.{Distinct}
use durable_execution_rust_s.Errors.{ok}
use durable_execution_rust_s.Operation.Kinds.{OperationType, type_eq}
use durable_execution_rust_s.Operation.Record.{Operation}
use durable_execution_rust_s.Client.{Client, CheckpointResponse, NewExecutionState}
use durable_execution_rust_s.State.Model.{ExecutionState, get_checkpoint_result}
use durable_execution_rust_s.State.Checkpoint.{create_checkpoint_with_response}
use durable_execution_rust_s.State.Checkpoint.Responses.{ids_of, lookup-insert_all, response_cached}
use durable_execution_rust_s.Handlers.{OperationIdentifier}
use durable_execution_rust_s.Handlers.Callback.{
  CallbackConfig, Callback, create_callback_start_update, response_id, created, existing,
  check_type, create, resume, callback_handler,
}

module _ {S : Type 0} (client : Client S) (id : OperationIdentifier) where
  made : String → Callback
  made callback_id = record { callback_id = callback_id; operation_id = id.operation_id }

  creates :
      (config : CallbackConfig) (s t : ExecutionState) (w x : S) (response : CheckpointResponse)
      (new : NewExecutionState) (op : Operation) (callback_id : String)
      → lookup id.operation_id s.operations ≡ none
      → create_checkpoint_with_response client (create_callback_start_update id config) s w
        ≡ (ok response, t, x)
      → response.new_execution_state ≡ some new
      → find (λ o. str_eq o.operation_id id.operation_id) new.operations ≡ some op
      → and_then op.callback_details (λ d. d.callback_id) ≡ some callback_id
      → callback_handler client id config s w ≡ (ok (made callback_id), t, x)
  unfolding callback_handler resume create created response_id get_checkpoint_result made
  creates config s t w x response new op callback_id missing accepted sends found named =
      rw (missing, accepted) (rw (sends, found) (rw named refl))

  answers :
      (config : CallbackConfig) (s : ExecutionState) (w : S) (op : Operation) (callback_id : String)
      → lookup id.operation_id s.operations ≡ some op
      → op.operation_type ≡ OperationType.callback
      → and_then op.callback_details (λ d. d.callback_id) ≡ some callback_id
      → callback_handler client id config s w ≡ (ok (made callback_id), s, w)
  unfolding callback_handler resume existing check_type get_checkpoint_result made type_eq
  answers config s w op callback_id here kind named = rw here (rw (kind, named) refl)

  -- A callback that is not stored and whose START is accepted with a new state, in which the
  -- operations have different ids and the one under the callback's id is a callback with an id
  -- from the service, is answered with that id, and every later run on the state it left, whatever
  -- its configuration, answers the same and does not call the service.
  pub callback_replayed :
      (config : CallbackConfig) (s t : ExecutionState) (w x : S) (response : CheckpointResponse)
      (new : NewExecutionState) (op : Operation) (callback_id : String)
      → lookup id.operation_id s.operations ≡ none
      → create_checkpoint_with_response client (create_callback_start_update id config) s w
        ≡ (ok response, t, x)
      → response.new_execution_state ≡ some new
      → Distinct (ids_of new.operations)
      → find (λ o. str_eq o.operation_id id.operation_id) new.operations ≡ some op
      → op.operation_type ≡ OperationType.callback
      → and_then op.callback_details (λ d. d.callback_id) ≡ some callback_id
      → (callback_handler client id config s w
          ≡ (ok (record { callback_id = callback_id; operation_id = id.operation_id }), t, x))
        × ((config' : CallbackConfig) (later : S)
            → callback_handler client id config' t later ≡ (
              ok (record { callback_id = callback_id; operation_id = id.operation_id }),
              t,
              later,
            ))
  unfolding made
  callback_replayed config s t w x response new op callback_id missing accepted sends distinct found
        kind named =
      let cached =
        response_cached client (create_callback_start_update id config) s t w x response new
          accepted sends in
      (
        creates config s t w x response new op callback_id missing accepted sends found named,
        λ config' later.
            answers config' t later op callback_id
              (ap (lookup id.operation_id) cached
                ∙ lookup-insert_all new.operations s.operations id.operation_id op distinct found)
              kind named,
      )
