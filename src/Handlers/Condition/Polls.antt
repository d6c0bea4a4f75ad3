-- ===== src/Handlers/Condition/Polls.antt =====
-- `wait_for_condition_handler` of sdk/src/handlers/wait_for_condition.rs: when it makes the check.
use durable_execution_rust_s.Prelude.{
  if◌then◌else◌, String, ◌≡◌, refl, subst, ap, ◌∙◌, ◌⊎◌, Bool, true, false, Option, none, some,
}
use durable_execution_rust_s.Prelude.Dict.{lookup}
use durable_execution_rust_s.Errors.{ok}
use durable_execution_rust_s.Operation.Kinds.{OperationType, OperationStatus, type_eq, status_eq}
use durable_execution_rust_s.Operation.Record.{Operation}
use durable_execution_rust_s.Operation.Update.{with_sub_type}
use durable_execution_rust_s.Operation.Update
use durable_execution_rust_s.Client.{Client, Sender}
use durable_execution_rust_s.State.Model.{ExecutionState, get_checkpoint_result}
use durable_execution_rust_s.State.Cache.Entries.{Started, stores-Started}
use durable_execution_rust_s.State.Checkpoint.Caching.{Quiet, checkpoint-Stores}
use durable_execution_rust_s.Serdes.{JsonSerDes}
use durable_execution_rust_s.Handlers.{OperationIdentifier}
use durable_execution_rust_s.Handlers.Updates.{apply_to-Is}
use durable_execution_rust_s.Handlers.Effects.{pure, checkpoint}
use durable_execution_rust_s.Handlers.Condition.{
  WaitForConditionState, WaitForConditionConfig, WaitForConditionContext, labelled,
  create_start_update, check_type, by_status, unless_failed, handle_replay, get_current_state, poll,
  or_poll, wait_for_condition_handler,
}

-- Nothing is stored of the wait, or a step that has neither succeeded nor failed.
abbrev pub Polls : String → ExecutionState → Type 0
Polls id s =
    (op : Operation)
    → lookup id s.operations ≡ some op
    → (op.operation_type ≡ OperationType.step)
      × (status_eq op.status OperationStatus.succeeded ≡ false)
      × (status_eq op.status OperationStatus.failed ≡ false)

pub pending_Polls :
    (id : String) (s : ExecutionState) (op : Operation)
    → lookup id s.operations ≡ some op
    → op.operation_type ≡ OperationType.step
    → op.status ≡ OperationStatus.pending
    → Polls id s
unfolding status_eq
pending_Polls id s op e kind pending op' e' =
    let same : op ≡ op' = cc in
    subst
      (λ o.
        (o.operation_type ≡ OperationType.step)
        × (status_eq o.status OperationStatus.succeeded ≡ false)
        × (status_eq o.status OperationStatus.failed ≡ false))
      same (kind, rw pending refl, rw pending refl)

module _ {U T S : Type 0} (serdes : JsonSerDes T)
    (state_serdes : JsonSerDes (WaitForConditionState U)) (client : Client S) (send : Sender S)
    (id : OperationIdentifier) (config : WaitForConditionConfig U)
    (check : U → WaitForConditionContext → S → (T ⊎ String) × S) where
  goes_on :
      (o : Option Operation) (s : ExecutionState) (w : S)
      → lookup id.operation_id s.operations ≡ o
      → Polls id.operation_id s
      → handle_replay serdes (record { operation = o }) id s w ≡ (ok none, s, w)
  unfolding handle_replay check_type by_status unless_failed type_eq
  goes_on none s w e open_wait = refl
  goes_on (some op) s w e open_wait = let (kind, a, b) = open_wait op e in rw (kind, a, b) refl

  -- The check is made in the state that the checkpoint says.
  pub polls :
      (s : ExecutionState) (w : S) (current : WaitForConditionState U)
      → Polls id.operation_id s
      → get_current_state state_serdes config (get_checkpoint_result s id.operation_id) ≡ ok current
      → wait_for_condition_handler serdes state_serdes client send id config check s w
        ≡ poll serdes state_serdes client send id config check
            (get_checkpoint_result s id.operation_id)
            current
            s
            w
  unfolding wait_for_condition_handler or_poll get_checkpoint_result
  polls s w current open_wait reads =
      rw (goes_on (lookup id.operation_id s.operations) s w refl open_wait, reads) refl

  pub step_after :
      (b : Bool) (s t : ExecutionState) (w x : S)
      → Quiet client
      → (if b then checkpoint client send (create_start_update id) else pure tt) s w ≡ (ok tt, t, x)
      → Polls id.operation_id s
      → (op : Operation) → lookup id.operation_id t.operations ≡ some op
      → op.operation_type ≡ OperationType.step
  unfolding create_start_update Update.start with_sub_type
  step_after true s t w x quiet h open_wait op' e' =
      let (op, e, kind, begun) =
        checkpoint-Stores client quiet send (create_start_update id) true s t w x id.operation_id
          OperationType.step Started h
          (stores-Started (create_start_update id) s
            (apply_to-Is id (labelled (Update.start id.operation_id OperationType.step)))) in
      let same : op ≡ op' = cc in subst (λ o. o.operation_type ≡ OperationType.step) same kind
  step_after false s t w x quiet h open_wait op e =
      (open_wait op (ap (λ r. lookup id.operation_id r.1.operations) h ∙ e)).0
