-- ===== src/Replay/Laws.antt =====
-- The outcomes of `check_replay` and `check_replay_status` (sdk/src/handlers/replay.rs).
use durable_execution_rust_s.Prelude.{
  String, ◌<>◌, ◌≡◌, ◌≢◌, ◌↔◌, true, false, Option, Option-cases, none, some, ◌⊎◌, inl, inr, arith,
  refl,
}
use durable_execution_rust_s.Errors.{ErrorObject, DurableError, TerminationReason, is_ok, ok, err}
use durable_execution_rust_s.Operation.Kinds.{
  OperationType, OperationStatus, type_eq, type_eq_iff, type_eq_refl, is_resumable, show_status,
}
use durable_execution_rust_s.Operation.Record.{Operation, get_result}
use durable_execution_rust_s.CheckpointedResult.{CheckpointedResult}
use durable_execution_rust_s.CheckpointedResult
use durable_execution_rust_s.Replay.{
  replayed, not_found, in_progress, type_mismatch, stored_error, was_status, stored_status_error,
  status_was, check_replay, check_replay_status,
}

-- A checkpoint that holds this operation.
abbrev pub stored : Operation → CheckpointedResult
stored op = record { operation = some op }

module _ {ℓ} {T : Type ℓ} (deserialize : String → T ⊎ String) where
  -- A completed operation whose stored text stands for `v`.
  abbrev pub StoresValue : Operation → T → Type ℓ
  StoresValue op v =
      (op.status ≡ OperationStatus.succeeded)
      × ((text : String) × (get_result op ≡ some text) × (deserialize text ≡ inl v))

  stored_text :
      (op : Operation) (kind : OperationType) (id : String) {v : T}
      → check_replay deserialize (record { operation = some op }) kind id ≡ ok (replayed v)
      → (text : String) × (get_result op ≡ some text) × (deserialize text ≡ inl v)
  unfolding check_replay type_eq
  stored_text op kind id h = elim (Option-cases (get_result op)) [
    | inl e ↦ absurd (ground arith)
    | inr (text, e) ↦ (text, e, ground arith)
  ]

  replayed_only_if :
      (o : Option Operation) (kind : OperationType) (id : String) {v : T}
      → check_replay deserialize (record { operation = o }) kind id ≡ ok (replayed v)
      → (op : Operation) × (o ≡ some op) × (op.operation_type ≡ kind) × StoresValue op v
  unfolding check_replay type_eq
  replayed_only_if none kind id h = absurd (ground arith)
  replayed_only_if (some op) kind id {v} h =
      (op, refl, ground arith, (ground arith, stored_text op kind id h))

  replayed_if :
      (o : Option Operation) (kind : OperationType) (id : String) {v : T}
      → (op : Operation) × (o ≡ some op) × (op.operation_type ≡ kind) × StoresValue op v
      → check_replay deserialize (record { operation = o }) kind id ≡ ok (replayed v)
  unfolding check_replay
  replayed_if o kind id (op, e, k, (s, (text, t, d))) = ground (arith, type_eq_refl kind)

  in_progress_only_if :
      (o : Option Operation) (kind : OperationType) (id : String)
      → check_replay deserialize (record { operation = o }) kind id ≡ ok in_progress
      → (op : Operation) × (o ≡ some op)
        × (op.operation_type ≡ kind)
        × (is_resumable op.status ≡ true)
  unfolding check_replay type_eq is_resumable
  in_progress_only_if none kind id h = absurd (ground arith)
  in_progress_only_if (some op) kind id h = (op, refl, ground arith, ground arith)

  in_progress_if :
      (o : Option Operation) (kind : OperationType) (id : String)
      → (op : Operation) × (o ≡ some op)
        × (op.operation_type ≡ kind)
        × (is_resumable op.status ≡ true)
      → check_replay deserialize (record { operation = o }) kind id ≡ ok in_progress
  unfolding check_replay is_resumable
  in_progress_if o kind id (op, e, k, s) = ground (arith, type_eq_refl kind)

  not_found_only_if :
      (o : Option Operation) (kind : OperationType) (id : String)
      → check_replay deserialize (record { operation = o }) kind id ≡ ok not_found
      → o ≡ none
  unfolding check_replay
  not_found_only_if none kind id h = refl
  not_found_only_if (some op) kind id h = absurd (ground arith)

  -- Replay detection returns a stored value exactly when the operation is stored with the expected
  -- type, succeeded, and its stored text deserializes to that value; it reports the operation in
  -- progress exactly when it is stored with that type in a resumable status; it reports it not
  -- found exactly when no operation is stored.
  pub check_replay_outcomes :
      (c : CheckpointedResult) (kind : OperationType) (id : String)
      → ((v : T)
          → (check_replay deserialize c kind id ≡ ok (replayed v)) ↔ (
              (op : Operation) × (c.operation ≡ some op)
              × (op.operation_type ≡ kind)
              × StoresValue op v))
        × ((check_replay deserialize c kind id ≡ ok in_progress) ↔ (
            (op : Operation) × (c.operation ≡ some op)
            × (op.operation_type ≡ kind)
            × (is_resumable op.status ≡ true)))
        × ((check_replay deserialize c kind id ≡ ok not_found) ↔ (c.operation ≡ none))
  check_replay_outcomes c kind id = (
    λ v. (replayed_only_if c.operation kind id, replayed_if c.operation kind id),
    (in_progress_only_if c.operation kind id, in_progress_if c.operation kind id),
    (not_found_only_if c.operation kind id, λ e. rw e (unfold check_replay in refl)),
  )

  -- An operation stored with another type than the expected one is a non-determinism error of both
  -- functions, whatever its status, result and error.
  pub mismatch_is_error :
      (op : Operation) (kind : OperationType) (id : String)
      → op.operation_type ≢ kind
      → (check_replay deserialize (stored op) kind id
          ≡ err (type_mismatch kind op.operation_type id))
        × (check_replay_status (stored op) kind id ≡ err (type_mismatch kind op.operation_type id))
  unfolding check_replay check_replay_status
  mismatch_is_error op kind id ne = (
    ground (arith, type_eq_iff op.operation_type kind),
    ground (arith, type_eq_iff op.operation_type kind),
  )

  same_stored_error : (o : Option ErrorObject) → stored_status_error o ≡ stored_error o
  unfolding stored_status_error stored_error
  same_stored_error none = refl
  same_stored_error (some e) = refl

  same_was : (o : Option OperationStatus) → status_was o ≡ was_status o
  unfolding status_was was_status
  same_was none = refl
  same_was (some s) = refl

  goes_on_only_if :
      (o : Option Operation) (kind : OperationType) (id : String)
      → check_replay_status (record { operation = o }) kind id ≡ ok false
      → (op : Operation) → o ≡ some op
      → (op.operation_type ≡ kind) × (is_resumable op.status ≡ true)
  unfolding check_replay_status type_eq is_resumable
  goes_on_only_if o kind id h op e = (ground arith, ground arith)

  goes_on_if :
      (o : Option Operation) (kind : OperationType) (id : String)
      → ((op : Operation)
          → o ≡ some op
          → (op.operation_type ≡ kind) × (is_resumable op.status ≡ true))
      → check_replay_status (record { operation = o }) kind id ≡ ok false
  unfolding check_replay_status is_resumable
  goes_on_if none kind id h = refl
  goes_on_if (some op) kind id h = let (k, s) = h op refl in ground (arith, type_eq_refl kind)

  -- On an operation that has not succeeded, check_replay and check_replay_status fail with the
  -- same errors, succeed together, and check_replay_status never reports it complete; it lets the
  -- execution go on exactly when the operation, if one is stored, has the expected type and a
  -- resumable status.
  pub unsuccessful_agree :
      (c : CheckpointedResult) (kind : OperationType) (id : String)
      → CheckpointedResult.is_succeeded c ≡ false
      → ((e : DurableError)
          → (check_replay deserialize c kind id ≡ err e) ↔ (check_replay_status c kind id ≡ err e))
        × (is_ok (check_replay deserialize c kind id) ≡ is_ok (check_replay_status c kind id))
        × (check_replay_status c kind id ≢ ok true)
        × ((check_replay_status c kind id ≡ ok false) ↔ (
            (op : Operation)
            → c.operation ≡ some op
            → (op.operation_type ≡ kind) × (is_resumable op.status ≡ true)))
  unfolding check_replay check_replay_status
  unsuccessful_agree c kind id h = (
    λ e.
        let same = same_stored_error (CheckpointedResult.error c) in
        let ended = same_was (CheckpointedResult.status c) in
        (λ p. ground arith, λ p. ground arith),
    ground arith,
    ground arith,
    (goes_on_only_if c.operation kind id, goes_on_if c.operation kind id),
  )

  -- A succeeded operation of the expected type without a stored result counts as complete for
  -- check_replay_status, while check_replay fails and calls it an operation that was Succeeded.
  pub succeeded_without_result :
      (op : Operation) (kind : OperationType) (id : String)
      → op.operation_type ≡ kind
      → op.status ≡ OperationStatus.succeeded
      → get_result op ≡ none
      → (check_replay deserialize (stored op) kind id
          ≡ err (
              DurableError.execution
                ("Operation was " <> show_status OperationStatus.succeeded)
                TerminationReason.step_interrupted))
        × (check_replay_status (stored op) kind id ≡ ok true)
  unfolding check_replay check_replay_status
  succeeded_without_result op kind id k s r =
      (ground (arith, type_eq_refl kind), ground (arith, type_eq_refl kind))
