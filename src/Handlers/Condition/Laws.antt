-- ===== src/Handlers/Condition/Laws.antt =====
-- `wait_for_condition_handler` of sdk/src/handlers/wait_for_condition.rs: a failed check, the attempt after it, and the
-- end of the attempts.
use durable_execution_rust_s.Prelude.{
  arith, ℕ, ◌+◌, ◌%◌, ◌^◌, String, ◌≡◌, refl, ◌∙◌, ◌⊎◌, inl, inr, true, none, some,
}
use durable_execution_rust_s.Prelude.Dict.{lookup}
use durable_execution_rust_s.Errors.{
  DurableError, ErrorObject, ok, err, execution_failure, user_code_from,
}
use durable_execution_rust_s.State.Tracking.{track_replay}
use durable_execution_rust_s.Operation.Kinds.{OperationType, type_eq, status_eq}
use durable_execution_rust_s.Operation.Record.{Operation}
use durable_execution_rust_s.Operation.Update.{with_sub_type}
use durable_execution_rust_s.Operation.Update
use durable_execution_rust_s.Client.{Client, Sender}
use durable_execution_rust_s.State.Model.{ExecutionState, get_checkpoint_result}
use durable_execution_rust_s.State.Cache.Entries.{Retried, Failed, stores-Failed, stores-Retried}
use durable_execution_rust_s.State.Checkpoint.{create_checkpoint}
use durable_execution_rust_s.State.Checkpoint.Caching.{Quiet, checkpoint-Stores}
use durable_execution_rust_s.Serdes.{JsonSerDes, RoundTrip}
use durable_execution_rust_s.Handlers.{OperationIdentifier}
use durable_execution_rust_s.Handlers.Updates.{apply_to-Is}
use durable_execution_rust_s.Handlers.Condition.{
  WaitDecision, WaitForConditionState, WaitForConditionConfig, WaitForConditionContext, labelled,
  create_retry_update, create_fail_update, attempts_error, failed_wait, check_type, by_status,
  unless_failed, handle_replay, get_current_state, from_payload, on_decision, on_check,
  checkpoint_start, poll, or_poll, wait_for_condition_handler,
}
use durable_execution_rust_s.Handlers.Condition.Polls.{Polls, pending_Polls, polls, step_after}

module _ {U T S : Type 0} (serdes : JsonSerDes T)
    (state_serdes : JsonSerDes (WaitForConditionState U)) (client : Client S) (send : Sender S)
    (id : OperationIdentifier) (config : WaitForConditionConfig U)
    (check : U → WaitForConditionContext → S → (T ⊎ String) × S) where
  retried :
      (text : String) (delay : ℕ) (t t' : ExecutionState) (x x' : S)
      → Quiet client
      → ((op : Operation)
          → lookup id.operation_id t.operations ≡ some op
          → op.operation_type ≡ OperationType.step)
      → create_checkpoint client send (create_retry_update id (some text) (some delay)) true t x
        ≡ (ok tt, t', x')
      → (op : Operation) × (lookup id.operation_id t'.operations ≡ some op)
        × (op.operation_type ≡ OperationType.step)
        × Retried text op
  unfolding create_retry_update Update.retry with_sub_type
  retried text delay t t' x x' quiet step accepted =
      checkpoint-Stores client quiet send (create_retry_update id (some text) (some delay)) true t
        t' x x' id.operation_id OperationType.step (Retried text) accepted
        (stores-Retried (create_retry_update id (some text) (some delay)) t id.operation_id text
          none
          (apply_to-Is id
            (labelled (Update.retry id.operation_id OperationType.step (some text) (some delay))))
          step)

  polls_again :
      (text : String) (next : WaitForConditionState U) (op : Operation) (t : ExecutionState) (w : S)
      → lookup id.operation_id t.operations ≡ some op
      → op.operation_type ≡ OperationType.step
      → Retried text op
      → state_serdes.deserialize text ≡ inl next
      → wait_for_condition_handler serdes state_serdes client send id config check t w
        ≡ poll serdes state_serdes client send id config check
            (get_checkpoint_result t id.operation_id)
            next
            t
            w
  unfolding get_checkpoint_result get_current_state from_payload
  polls_again text next op t w e kind (pending, payload) reads =
      polls serdes state_serdes client send id config check t w next
        (pending_Polls id.operation_id t op e kind pending) (rw (e, payload, reads) refl)

  failed_attempt :
      (current : WaitForConditionState U) (e text : String) (delay : ℕ) (s t t' : ExecutionState)
      (w x x₁ x' : S)
      → checkpoint_start serdes state_serdes client send id config
          (get_checkpoint_result s id.operation_id)
          current.attempt
          s
          w
        ≡ (ok tt, t, x)
      → check current.user_state (record { attempt = current.attempt; max_attempts = none }) x
        ≡ (inr e, x₁)
      → config.wait_strategy current.user_state current.attempt ≡ WaitDecision.continue delay
      → state_serdes.serialize (record current { attempt = (current.attempt + 1) % 2 ^ 64 })
        ≡ inl text
      → create_checkpoint client send (create_retry_update id (some text) (some delay)) true t x₁
        ≡ (ok tt, t', x')
      → poll serdes state_serdes client send id config check
          (get_checkpoint_result s id.operation_id)
          current
          s
          w
        ≡ (err (DurableError.suspend none), t', x')
  unfolding poll on_check on_decision
  failed_attempt current e text delay s t t' w x x₁ x' starts fails goes written accepted =
      rw (starts, fails, goes, written, accepted) refl

  -- When the service sends no new state and a state is read back as it was written: a wait that is
  -- not stored, or is stored as a step that has neither succeeded nor failed, and whose check
  -- fails and goes on, once its START, where it is due, and its RETRY are accepted, suspends, and
  -- every later run on the state it left makes the check with the same user state and an attempt
  -- that is one higher, modulo 2 ^ 64.
  pub next_attempt :
      (current : WaitForConditionState U) (e text : String) (delay : ℕ) (s t t' : ExecutionState)
      (w x x₁ x' : S)
      → Quiet client
      → RoundTrip state_serdes
      → Polls id.operation_id s
      → get_current_state state_serdes config (get_checkpoint_result s id.operation_id) ≡ ok current
      → checkpoint_start serdes state_serdes client send id config
          (get_checkpoint_result s id.operation_id)
          current.attempt
          s
          w
        ≡ (ok tt, t, x)
      → check current.user_state (record { attempt = current.attempt; max_attempts = none }) x
        ≡ (inr e, x₁)
      → config.wait_strategy current.user_state current.attempt ≡ WaitDecision.continue delay
      → state_serdes.serialize (record current { attempt = (current.attempt + 1) % 2 ^ 64 })
        ≡ inl text
      → create_checkpoint client send (create_retry_update id (some text) (some delay)) true t x₁
        ≡ (ok tt, t', x')
      → (wait_for_condition_handler serdes state_serdes client send id config check s w
          ≡ (err (DurableError.suspend none), t', x'))
        × ((later : S)
            → wait_for_condition_handler serdes state_serdes client send id config check t' later
              ≡ poll serdes state_serdes client send id config check
                  (get_checkpoint_result t' id.operation_id)
                  (record current { attempt = (current.attempt + 1) % 2 ^ 64 })
                  t'
                  later)
  unfolding checkpoint_start
  next_attempt current e text delay s t t' w x x₁ x' quiet trip open_wait reads starts fails goes
        written accepted =
      let (op, here, kind, retry) =
        retried text delay t t' x₁ x' quiet
          (step_after serdes state_serdes client send id config check _ s t w x quiet starts
            open_wait)
          accepted in
      (
        polls serdes state_serdes client send id config check s w current open_wait reads
            ∙ failed_attempt current e text delay s t t' w x x₁ x' starts fails goes written
                accepted,
        λ later. polls_again text _ op t' later here kind retry (trip _ text written),
      )

  failure_stored :
      (error : ErrorObject) (t t' : ExecutionState) (x x' : S)
      → Quiet client
      → ((op : Operation)
          → lookup id.operation_id t.operations ≡ some op
          → op.operation_type ≡ OperationType.step)
      → create_checkpoint client send (create_fail_update id error) true t x ≡ (ok tt, t', x')
      → (op : Operation) × (lookup id.operation_id t'.operations ≡ some op)
        × (op.operation_type ≡ OperationType.step)
        × Failed (some error) op
  unfolding create_fail_update Update.fail with_sub_type
  failure_stored error t t' x x' quiet step accepted =
      checkpoint-Stores client quiet send (create_fail_update id error) true t t' x x'
        id.operation_id OperationType.step (Failed (some error)) accepted
        (stores-Failed (create_fail_update id error) t
          (apply_to-Is id (labelled (Update.fail id.operation_id OperationType.step error))) step)

  answers_failure :
      (op : Operation) (error : ErrorObject) (s : ExecutionState) (w : S)
      → lookup id.operation_id s.operations ≡ some op
      → op.operation_type ≡ OperationType.step
      → Failed (some error) op
      → wait_for_condition_handler serdes state_serdes client send id config check s w
        ≡ (err (user_code_from error), track_replay s id.operation_id, w)
  unfolding wait_for_condition_handler or_poll get_checkpoint_result handle_replay check_type
      by_status unless_failed failed_wait type_eq status_eq
  answers_failure op error s w e kind (failed, is) = rw e (ground arith)

  given_up :
      (current : WaitForConditionState U) (e : String) (s t t' : ExecutionState) (w x x₁ x' : S)
      → checkpoint_start serdes state_serdes client send id config
          (get_checkpoint_result s id.operation_id)
          current.attempt
          s
          w
        ≡ (ok tt, t, x)
      → check current.user_state (record { attempt = current.attempt; max_attempts = none }) x
        ≡ (inr e, x₁)
      → config.wait_strategy current.user_state current.attempt ≡ WaitDecision.done
      → create_checkpoint client send (create_fail_update id (attempts_error e)) true t x₁
        ≡ (ok tt, t', x')
      → poll serdes state_serdes client send id config check
          (get_checkpoint_result s id.operation_id)
          current
          s
          w
        ≡ (err (execution_failure "Max attempts exceeded for wait_for_condition"), t', x')
  unfolding poll on_check on_decision execution_failure attempts_error
  given_up current e s t t' w x x₁ x' starts fails ends accepted =
      rw (starts, fails, ends, accepted) refl

  -- When the service sends no new state: a wait that is not stored, or is stored as a step that
  -- has neither succeeded nor failed, and whose check fails and whose strategy ends it, once its
  -- START, where it is due, and its FAIL are accepted, reports an execution error, and every later
  -- run on the state it left reports another one: a user code error of the type
  -- MaxAttemptsExceeded with the text of the last failure.
  pub attempts_exceeded :
      (current : WaitForConditionState U) (e : String) (s t t' : ExecutionState) (w x x₁ x' : S)
      → Quiet client
      → Polls id.operation_id s
      → get_current_state state_serdes config (get_checkpoint_result s id.operation_id) ≡ ok current
      → checkpoint_start serdes state_serdes client send id config
          (get_checkpoint_result s id.operation_id)
          current.attempt
          s
          w
        ≡ (ok tt, t, x)
      → check current.user_state (record { attempt = current.attempt; max_attempts = none }) x
        ≡ (inr e, x₁)
      → config.wait_strategy current.user_state current.attempt ≡ WaitDecision.done
      → create_checkpoint client send (create_fail_update id (attempts_error e)) true t x₁
        ≡ (ok tt, t', x')
      → (wait_for_condition_handler serdes state_serdes client send id config check s w
          ≡ (err (execution_failure "Max attempts exceeded for wait_for_condition"), t', x'))
        × ((later : S)
            → wait_for_condition_handler serdes state_serdes client send id config check t' later
              ≡ (err (user_code_from (attempts_error e)), track_replay t' id.operation_id, later))
  unfolding checkpoint_start
  attempts_exceeded current e s t t' w x x₁ x' quiet open_wait reads starts fails ends accepted =
      let (op, here, kind, failed) =
        failure_stored (attempts_error e) t t' x₁ x' quiet
          (step_after serdes state_serdes client send id config check _ s t w x quiet starts
            open_wait)
          accepted in
      (
        polls serdes state_serdes client send id config check s w current open_wait reads
            ∙ given_up current e s t t' w x x₁ x' starts fails ends accepted,
        λ later. answers_failure op (attempts_error e) t' later here kind failed,
      )
