-- ===== src/Handlers/Invoke/Laws.antt =====
-- `invoke_handler` of sdk/src/handlers/invoke.rs: when an invocation gives a value, and when it is
-- started.
use durable_execution_rust_s.Prelude.{
  String, ◌≡◌, ◌≢◌, ◌↔◌, ◌⊎◌, inl, inr, refl, sym, ap, ◌∙◌, true, false, Bool-cases, Option, none,
  some, arith,
}
use durable_execution_rust_s.Prelude.Dict.{lookup}
use durable_execution_rust_s.Errors.{DurableError, ok, err}
use durable_execution_rust_s.Operation.Kinds.{
  OperationType, OperationStatus, type_eq, type_eq_iff, status_eq, status_eq_iff, is_terminal,
}
use durable_execution_rust_s.Operation.Record.{Operation, get_result}
use durable_execution_rust_s.Client.{Client, Sender}
use durable_execution_rust_s.State.Model.{ExecutionState, get_checkpoint_result}
use durable_execution_rust_s.State.Checkpoint.{Run, create_checkpoint}
use durable_execution_rust_s.State.Tracking.{track_replay}
use durable_execution_rust_s.Serdes.{JsonSerDes}
use durable_execution_rust_s.Handlers.{OperationIdentifier}
use durable_execution_rust_s.Handlers.Effects.{Handler, continue}
use durable_execution_rust_s.Handlers.Invoke.{
  InvokeConfig, create_invoke_start_update, check_type, start_invoke, with_result, without_result,
  by_status, resume, invoke_handler,
}

module _ {P V S : Type 0} (payload_serdes : JsonSerDes P) (serdes : JsonSerDes V)
    (client : Client S) (send : Sender S) (function_name : String) (payload : P)
    (id : OperationIdentifier) (config : InvokeConfig) where
  -- The stored invocation has succeeded with a text that is read as `v`.
  abbrev pub Answered : Option Operation → V → Type 0
  Answered o v =
      (op : Operation) × (o ≡ some op)
      × (op.operation_type ≡ OperationType.invoke)
      × (op.status ≡ OperationStatus.succeeded)
      × ((text : String) × (get_result op ≡ some text) × (serdes.deserialize text ≡ inl v))

  answers :
      (o : Option Operation) (v : V) (s : ExecutionState) (w : S)
      → Answered o v
      → resume payload_serdes serdes client send function_name payload id config
          (record { operation = o })
          s
          w
        ≡ (ok v, track_replay s id.operation_id, w)
  unfolding resume check_type by_status with_result type_eq status_eq
  answers o v s w (op, e, kind, done, (text, read, back)) = rw e (ground (arith, read, back))

  suspends :
      (r : Run (Unit {0}) S) (v : V) (s' : ExecutionState) (w' : S)
      → continue r (λ done s w. (err (DurableError.suspend none), s, w)) ≢ (ok v, s', w')
  suspends (ok done, s, w) v s' w' h = cc
  suspends (err e, s, w) v s' w' h = cc

  start_suspends :
      (written : String ⊎ String) (v : V) (s s' : ExecutionState) (w w' : S)
      → payload_serdes.serialize payload ≡ written
      → start_invoke payload_serdes serdes client send function_name payload id config s w
        ≢ (ok v, s', w')
  unfolding start_invoke
  start_suspends (inl text) v s s' w w' e h =
      let same : start_invoke payload_serdes serdes client send function_name payload id config s w
          ≡ continue
              (create_checkpoint client send
                (create_invoke_start_update id function_name text config) true s w)
              (λ done s w. (err (DurableError.suspend none), s, w)) =
        rw e refl in
      suspends _ v s' w' (sym same ∙ h)
  start_suspends (inr m) v s s' w w' e h = ground arith

  no_value_without :
      (op : Operation) (v : V) (s s' : ExecutionState) (w w' : S)
      → without_result payload_serdes serdes client send function_name payload id config
          (record { operation = some op })
          s
          w
        ≢ (ok v, s', w')
  unfolding without_result
  no_value_without op v s s' w w' h =
      ground (arith, start_suspends (payload_serdes.serialize payload) v s s' w w' refl)

  read_value :
      (found : Option String) (v : V) (rest : Handler S V) (s s' : ExecutionState) (w w' : S)
      → ((s' : ExecutionState) (w' : S) → rest s w ≢ (ok v, s', w'))
      → with_result payload_serdes serdes client send function_name payload id config found rest s w
        ≡ (ok v, s', w')
      → (text : String) × (found ≡ some text) × (serdes.deserialize text ≡ inl v)
  unfolding with_result
  read_value none v rest s s' w w' never h = absurd (never s' w' h)
  read_value (some text) v rest s s' w w' never h = (text, refl, ground arith)

  -- A value comes from the stored result.
  by_status_at :
      (op : Operation) (v : V) (s s' : ExecutionState) (w w' : S)
      → resume payload_serdes serdes client send function_name payload id config
          (record { operation = some op })
          s
          w
        ≡ (ok v, s', w')
      → (op.operation_type ≡ OperationType.invoke)
        × (by_status payload_serdes serdes client send function_name payload id config
              (record { operation = some op })
              s
              w
            ≡ (ok v, s', w'))
  unfolding resume check_type
  by_status_at op v s s' w w' h =
      elim (Bool-cases (type_eq op.operation_type OperationType.invoke)) [
        | inl same ↦ ((type_eq_iff op.operation_type OperationType.invoke).0 same, ground arith)
        | inr other ↦ absurd (ground arith)
      ]

  result_at :
      (op : Operation) (v : V) (s s' : ExecutionState) (w w' : S)
      → by_status payload_serdes serdes client send function_name payload id config
          (record { operation = some op })
          s
          w
        ≡ (ok v, s', w')
      → (op.status ≡ OperationStatus.succeeded)
        × (with_result payload_serdes serdes client send function_name payload id config
              (get_result op)
              (without_result payload_serdes serdes client send function_name payload id config
                (record { operation = some op }))
              s
              w
            ≡ (ok v, s', w'))
  unfolding by_status
  result_at op v s s' w w' h = elim (Bool-cases (status_eq op.status OperationStatus.succeeded)) [
    | inl done ↦ (
      (status_eq_iff op.status OperationStatus.succeeded).0 done,
      (let same : by_status payload_serdes serdes client send function_name payload id config
                (record { operation = some op }) s w
              ≡ with_result payload_serdes serdes client send function_name payload id config
                  (get_result op)
                  (without_result payload_serdes serdes client send function_name payload id config
                    (record { operation = some op }))
                  s w =
            rw done refl in
          sym same ∙ h),
    )
    | inr other ↦ absurd (
        no_value_without op v s s' w w' (
          let same : by_status payload_serdes serdes client send function_name payload id config
                (record { operation = some op }) s w
              ≡ without_result payload_serdes serdes client send function_name payload id config
                  (record { operation = some op }) s w =
            rw other refl in
          sym same ∙ h))
  ]

  stored_if_value :
      (o : Option Operation) (v : V) (s s' : ExecutionState) (w w' : S)
      → resume payload_serdes serdes client send function_name payload id config
          (record { operation = o })
          s
          w
        ≡ (ok v, s', w')
      → Answered o v
  unfolding resume
  stored_if_value none v s s' w w' h = absurd (start_suspends _ v s s' w w' refl h)
  stored_if_value (some op) v s s' w w' h =
      let (kind, run) = by_status_at op v s s' w w' h in
      let (done, read) = result_at op v s s' w w' run in
      (
        op,
        refl,
        kind,
        done,
        read_value (get_result op) v
            (without_result payload_serdes serdes client send function_name payload id config
              (record { operation = some op }))
            s s' w w' (λ t x. no_value_without op v s t w x) read,
      )

  value_run : (r : Run V S) (v : V) → r.0 ≡ ok v → r ≡ (ok v, r.1, r.2)
  value_run r v h = λ i. (h i, r.1, r.2)

  value_stored :
      (v : V) (s : ExecutionState) (w : S)
      → (invoke_handler payload_serdes serdes client send function_name payload id config s w).0
        ≡ ok v
      → Answered (lookup id.operation_id s.operations) v
  unfolding invoke_handler get_checkpoint_result
  value_stored v s w h = stored_if_value _ v s _ w _ (value_run _ v h)

  -- An invocation returns a value exactly when it is stored as one that succeeded with a text that
  -- is read as that value; then the operation is tracked and the service is not called.
  pub invoke_handler_returns :
      (v : V) (s : ExecutionState) (w : S)
      → let run =
          invoke_handler payload_serdes serdes client send function_name payload id config s w in
        ((run.0 ≡ ok v) ↔ Answered (lookup id.operation_id s.operations) v)
        × (run.0 ≡ ok v → run ≡ (ok v, track_replay s id.operation_id, w))
  unfolding invoke_handler get_checkpoint_result
  invoke_handler_returns v s w = (
    (value_stored v s w, λ given. ap (λ r. r.0) (answers _ v s w given)),
    λ h. answers _ v s w (value_stored v s w h),
  )

  -- An invocation that is not stored, and a stored one that is not over, checkpoint START: an
  -- invocation that is still running is started again.
  pub unsettled_invoke_starts :
      (s : ExecutionState) (w : S) (o : Option Operation)
      → lookup id.operation_id s.operations ≡ o
      → (o ≡ none)
        ⊎ ((op : Operation) × (o ≡ some op)
            × (op.operation_type ≡ OperationType.invoke)
            × (is_terminal op.status ≡ false))
      → invoke_handler payload_serdes serdes client send function_name payload id config s w
        ≡ start_invoke payload_serdes serdes client send function_name payload id config s w
  unfolding invoke_handler get_checkpoint_result resume check_type by_status without_result type_eq
      status_eq is_terminal
  unsettled_invoke_starts s w o e (inl missing) = rw (e, missing) refl
  unsettled_invoke_starts s w o e (inr (op, here, kind, going)) = rw (e, here) (ground arith)
