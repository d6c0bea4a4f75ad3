-- ===== src/Handlers/Child/Replays.antt =====
-- `child_handler` of sdk/src/handlers/child.rs: what a later run of a child context that is over answers.
use durable_execution_rust_s.Prelude.{
  String, ◌≡◌, ◌↔◌, refl, subst, ap, ◌∙◌, inl, Bool, true, false, Option, none, some, arith, ◌≤◌,
  byte_len,
}
use durable_execution_rust_s.Prelude.Dict.{lookup}
use durable_execution_rust_s.Errors.{
  DurableError, ErrorObject, ok, err, error_object_from, is_suspend, user_code_from,
}
use durable_execution_rust_s.Operation.Kinds.{OperationType}
use durable_execution_rust_s.Operation.Update.{OperationUpdate}
use durable_execution_rust_s.Operation.Update
use durable_execution_rust_s.Client.{Client, Sender}
use durable_execution_rust_s.State.Model.{ExecutionState, mark_parent_done}
use durable_execution_rust_s.State.Cache.Entries.{
  Open, Stores, Succeeded, Failed, stores-Succeeded, stores-Failed,
}
use durable_execution_rust_s.State.Checkpoint.{create_checkpoint}
use durable_execution_rust_s.State.Checkpoint.Caching.{Quiet, checkpoint-Stores}
use durable_execution_rust_s.State.Tracking.{track_replay}
use durable_execution_rust_s.Context.{DurableContext, create_child_context}
use durable_execution_rust_s.Serdes.{JsonSerDes, RoundTrip}
use durable_execution_rust_s.Handlers.{OperationIdentifier}
use durable_execution_rust_s.Handlers.Updates.{apply_to-Is}
use durable_execution_rust_s.Handlers.Effects.{Handler}
use durable_execution_rust_s.Handlers.Child.{
  ChildConfig, summary_threshold, create_succeed_update, create_fail_update, summarized, mapped,
  execute_child, child_handler,
}
use durable_execution_rust_s.Handlers.Child.Executed.{NotOver, Begins, executed, runs}
use durable_execution_rust_s.Handlers.Child.Laws.{finished, stored_error}
use durable_execution_rust_s.Handlers.Child.Entries.{
  NoStaleResult, LeavesEntry, begins_Open, after_func-Open, answers_value, answers_error,
}

-- The error that a later run reports for a failure `e`.
abbrev pub replayed_error : DurableError → DurableError
replayed_error e = user_code_from (error_object_from e)

abbrev pub is_user_code : DurableError → Bool
is_user_code (DurableError.user_code m t x) = true
is_user_code _ = false

-- Only a user code error is replayed as itself.
replayed_error_same : (e : DurableError) → (replayed_error e ≡ e) ↔ (is_user_code e ≡ true)
unfolding user_code_from error_object_from
replayed_error_same e = ground arith

module _ {T S : Type 0} (serdes : JsonSerDes T) (client : Client S) (quiet : Quiet client)
    (send : Sender S) (func : DurableContext → Handler S T) (id : OperationIdentifier)
    (config : ChildConfig) where
  small :
      (f : Option (String → String)) (text : String)
      → byte_len text ≤ summary_threshold
      → summarized f text ≡ text
  unfolding summarized
  small none text le = refl
  small (some f) text le = ground arith

  stored_result :
      (v : T) (text : String) (t t' : ExecutionState) (x x' : S)
      → Open id.operation_id OperationType.context t.operations
      → byte_len text ≤ summary_threshold
      → create_checkpoint client send
          (create_succeed_update id (some (summarized config.summary_generator text)))
          true
          t
          x
        ≡ (ok tt, t', x')
      → Stores id.operation_id OperationType.context t'.operations (Succeeded (some text))
  unfolding create_succeed_update Update.succeed
  stored_result v text t t' x x' free short accepted =
      let u = create_succeed_update id (some (summarized config.summary_generator text)) in
      subst (λ z. Stores id.operation_id OperationType.context t'.operations (Succeeded (some z)))
        (small config.summary_generator text short)
        (checkpoint-Stores client quiet send u true t t' x x' id.operation_id OperationType.context
          (Succeeded (some (summarized config.summary_generator text))) accepted
          (stores-Succeeded u t
            (apply_to-Is id (
              Update.succeed id.operation_id OperationType.context
                (some (summarized config.summary_generator text))))
            free))

  marked_same :
      (s : ExecutionState) → (mark_parent_done s id.operation_id).operations ≡ s.operations
  unfolding mark_parent_done
  marked_same s = refl

  -- When the service sends no new state, what is serialized is read back, and the child's own
  -- operations leave the entry of the child context alone: a child context that was not over, had
  -- no stored result and returned a value of at most 256 KiB returns that value in every later
  -- run, on the state it left, that does not replay the children, and that run calls neither the
  -- function nor the service.
  pub child_result_replayed :
      RoundTrip serdes
      → LeavesEntry id.operation_id func
      → (v : T) (s s' : ExecutionState) (w w' : S)
      → ((text : String) → serdes.serialize v ≡ inl text → byte_len text ≤ summary_threshold)
      → NotOver id.operation_id s
      → NoStaleResult id.operation_id s
      → child_handler serdes client send func id config s w ≡ (ok v, s', w')
      → (func' : DurableContext → Handler S T) (config' : ChildConfig) (later : S)
      → config'.replay_children ≡ false
      → child_handler serdes client send func' id config' s' later
        ≡ (ok v, track_replay s' id.operation_id, later)
  child_result_replayed trip leaves v s s' w w' short going fresh h func' config' later plain =
      let (t, x, run, begins) = executed serdes client send func id config v s s' w w' going h in
      let (text, e, (t', accepted, left)) =
        finished serdes client send id config func v t s' x w' run in
      let free =
        after_func-Open serdes client quiet send func id config t x leaves
          (begins_Open serdes client quiet send func id config s t w x fresh begins) in
      let (op, here, kind, (done, read)) =
        stored_result v text _ t' _ w' free (short text e) accepted in
      answers_value serdes client send func' id config' op v text s' later
        (ap (λ z. lookup id.operation_id z.operations) left
          ∙ ap (λ z. lookup id.operation_id z) (marked_same t')
          ∙ here)
        kind done read (trip v text e) plain

  stored_failure :
      (error : ErrorObject) (t t' : ExecutionState) (x x' : S)
      → Open id.operation_id OperationType.context t.operations
      → create_checkpoint client send (create_fail_update id error) true t x ≡ (ok tt, t', x')
      → Stores id.operation_id OperationType.context t'.operations (Failed (some error))
  unfolding create_fail_update Update.fail
  stored_failure error t t' x x' free accepted =
      checkpoint-Stores client quiet send (create_fail_update id error) true t t' x x'
        id.operation_id OperationType.context (Failed (some error)) accepted
        (stores-Failed (create_fail_update id error) t
          (apply_to-Is id (Update.fail id.operation_id OperationType.context error))
          (λ op e. (free op e).0))

  fails :
      (e : DurableError) (t t₁ t₂ : ExecutionState) (x x₁ x₂ : S)
      → func (create_child_context id.operation_id) t x ≡ (err e, t₁, x₁)
      → is_suspend e ≡ false
      → create_checkpoint client send
          (create_fail_update id (error_object_from (mapped config.error_mapper e)))
          true
          t₁
          x₁
        ≡ (ok tt, t₂, x₂)
      → execute_child serdes client send func id config t x
        ≡ (err (mapped config.error_mapper e), mark_parent_done t₂ id.operation_id, x₂)
  unfolding execute_child
  fails e t t₁ t₂ x x₁ x₂ run error accepted =
      rw run (stored_error serdes client send id config e t₁ x₁ error ∙ rw accepted refl)

  -- When the service sends no new state and the child's own operations leave the entry of the
  -- child context alone: a child context that is not over, has no stored result and fails with an
  -- error that is no suspension reports the mapped error, once its START, where it is due, and its
  -- FAIL are accepted. Every later run on the state it left reports the user code error with the
  -- type, the message and the stack trace that were stored, and calls neither the function nor the
  -- service. The two errors are the same exactly when the first is a user code error.
  pub child_error_replayed :
      (e : DurableError) (s t t₁ t₂ : ExecutionState) (w x x₁ x₂ : S)
      → LeavesEntry id.operation_id func
      → NotOver id.operation_id s
      → NoStaleResult id.operation_id s
      → Begins serdes client send func id config s w t x
      → func (create_child_context id.operation_id) t x ≡ (err e, t₁, x₁)
      → is_suspend e ≡ false
      → create_checkpoint client send
          (create_fail_update id (error_object_from (mapped config.error_mapper e)))
          true
          t₁
          x₁
        ≡ (ok tt, t₂, x₂)
      → let error = mapped config.error_mapper e in
        let done = mark_parent_done t₂ id.operation_id in
        (child_handler serdes client send func id config s w ≡ (err error, done, x₂))
        × ((func' : DurableContext → Handler S T) (config' : ChildConfig) (later : S)
            → child_handler serdes client send func' id config' done later
              ≡ (err (replayed_error error), track_replay done id.operation_id, later))
        × ((replayed_error error ≡ error) ↔ (is_user_code error ≡ true))
  child_error_replayed e s t t₁ t₂ w x x₁ x₂ leaves going fresh begins run error accepted =
      let free : Open id.operation_id OperationType.context t₁.operations =
        subst (λ z. Open id.operation_id OperationType.context z.operations) (ap (λ r. r.1) run)
          (after_func-Open serdes client quiet send func id config t x leaves
            (begins_Open serdes client quiet send func id config s t w x fresh begins)) in
      let (op, here, kind, (failed, is)) = stored_failure _ t₁ t₂ x₁ x₂ free accepted in
      (
        runs serdes client send func id config s t w x going begins
            ∙ fails e t t₁ t₂ x x₁ x₂ run error accepted,
        λ func' config' later.
            answers_error serdes client send func' id config' op _ _ later
              (ap (λ z. lookup id.operation_id z) (marked_same t₂) ∙ here) kind failed is,
        replayed_error_same (mapped config.error_mapper e),
      )
