-- ===== src/Handlers/Callback/Laws.antt =====
-- `Callback::result` of sdk/src/handlers/callback.rs: when it gives a value, and when it suspends.
use durable_execution_rust_s.Prelude.{
  String, ◌≡◌, ◌≢◌, sym, ◌∙◌, ◌↔◌, ◌⊎◌, inl, inr, refl, ap, Bool-cases, Option, none, some, arith,
}
use durable_execution_rust_s.Prelude.Dict.{lookup}
use durable_execution_rust_s.Errors.{DurableError, ok, err}
use durable_execution_rust_s.Operation.Kinds.{OperationStatus, status_eq, status_eq_iff}
use durable_execution_rust_s.Operation.Record.{Operation, get_result}
use durable_execution_rust_s.State.Model.{ExecutionState, get_checkpoint_result}
use durable_execution_rust_s.State.Tracking.{track_replay}
use durable_execution_rust_s.Serdes.{JsonSerDes}
use durable_execution_rust_s.Handlers.Effects.{Handler}
use durable_execution_rust_s.Handlers.Callback.{
  Callback, unanswered, with_result, read_callback, callback_result,
}

module _ {T : Type 0} (serdes : JsonSerDes T) where
  -- The stored callback has succeeded with a text that is read as `v`.
  abbrev pub Called : Option Operation → T → Type 0
  Called o v =
      (op : Operation) × (o ≡ some op)
      × (op.status ≡ OperationStatus.succeeded)
      × ((text : String) × (get_result op ≡ some text) × (serdes.deserialize text ≡ inl v))

module _ {T S : Type 0} (serdes : JsonSerDes T) (callback : Callback) where
  value_read :
      (o : Option Operation) (v : T) (s : ExecutionState) (w : S)
      → Called serdes o v
      → read_callback serdes callback (record { operation = o }) s w
        ≡ (ok v, track_replay s callback.operation_id, w)
  unfolding read_callback with_result status_eq
  value_read o v s w (op, e, done, (text, read, back)) = rw e (ground (arith, read, back))

  text_read :
      (found : Option String) (v : T) (rest : Handler S T) (s : ExecutionState) (w : S)
      → ((rest s w).0 ≢ ok v)
      → (with_result serdes callback found rest s w).0 ≡ ok v
      → (text : String) × (found ≡ some text) × (serdes.deserialize text ≡ inl v)
  unfolding with_result
  text_read none v rest s w never h = absurd (never h)
  text_read (some text) v rest s w never h = (text, refl, ground arith)

  never_pending :
      (op : Operation) (v : T) (s : ExecutionState) (w : S)
      → (unanswered serdes callback (record { operation = some op }) s w).0 ≢ ok v
  unfolding unanswered
  never_pending op v s w h = ground arith

  stored_result :
      (op : Operation) (v : T) (s : ExecutionState) (w : S)
      → (read_callback serdes callback (record { operation = some op }) s w).0 ≡ ok v
      → (op.status ≡ OperationStatus.succeeded)
        × ((with_result serdes callback
              (get_result op)
              (unanswered serdes callback (record { operation = some op }))
              s
              w).0
            ≡ ok v)
  unfolding read_callback
  stored_result op v s w h = elim (Bool-cases (status_eq op.status OperationStatus.succeeded)) [
    | inl done ↦
        let same : read_callback serdes callback (record { operation = some op }) s w
            ≡ with_result serdes callback (get_result op)
                (unanswered serdes callback (record { operation = some op })) s w =
          rw done refl in
        ((status_eq_iff op.status OperationStatus.succeeded).0 done, sym (ap (λ r. r.0) same) ∙ h)
    | inr other ↦
        let same : read_callback serdes callback (record { operation = some op }) s w
            ≡ unanswered serdes callback (record { operation = some op }) s w =
          rw other refl in
        absurd (never_pending op v s w (sym (ap (λ r. r.0) same) ∙ h))
  ]

  only_read :
      (o : Option Operation) (v : T) (s : ExecutionState) (w : S)
      → (read_callback serdes callback (record { operation = o }) s w).0 ≡ ok v
      → Called serdes o v
  unfolding read_callback
  only_read none v s w h = absurd (ground arith)
  only_read (some op) v s w h =
      let (done, read) = stored_result op v s w h in
      (
        op,
        refl,
        done,
        text_read (get_result op) v (unanswered serdes callback (record { operation = some op })) s
            w (never_pending op v s w) read,
      )

  suspends_at :
      (op : Operation) (s : ExecutionState) (w : S)
      → (op.status ≡ OperationStatus.cancelled) ⊎ (op.status ≡ OperationStatus.stopped)
      → read_callback serdes callback (record { operation = some op }) s w
        ≡ (err (DurableError.suspend none), s, w)
  unfolding read_callback unanswered status_eq
  suspends_at op s w (inl e) = rw e refl
  suspends_at op s w (inr e) = rw e refl

  -- A callback gives a value exactly when an operation is stored under its id, of whatever type,
  -- that succeeded with a text that is read as that value; then the operation is tracked and the
  -- world is left as it is. A callback that is stored as cancelled or stopped suspends the
  -- execution.
  pub callback_result_outcomes :
      (v : T) (s : ExecutionState) (w : S)
      → let run = callback_result serdes callback s w in
        let o = lookup callback.operation_id s.operations in
        ((run.0 ≡ ok v) ↔ Called serdes o v)
        × (run.0 ≡ ok v → run ≡ (ok v, track_replay s callback.operation_id, w))
        × ((op : Operation)
            → o ≡ some op
            → (op.status ≡ OperationStatus.cancelled) ⊎ (op.status ≡ OperationStatus.stopped)
            → run ≡ (err (DurableError.suspend none), s, w))
  unfolding callback_result get_checkpoint_result
  callback_result_outcomes v s w = (
    (only_read _ v s w, λ given. ap (λ r. r.0) (value_read _ v s w given)),
    λ h.
        let o = lookup callback.operation_id s.operations in
        value_read o v s w (only_read o v s w h),
    λ op e ended. rw e (suspends_at op s w ended),
  )
