-- ===== src/State/Checkpoint/Responses.antt =====
-- The cache after `create_checkpoint_with_response` of sdk/src/state/execution_state.rs, when the
-- service sends a new state with its answer.
use durable_execution_rust_s.Prelude.{
  String, ◌≡◌, refl, sym, ap, ◌∙◌, false, Option, none, some, List, [], ◌∷◌, map, find, str_eq,
  arith, eq_iff, Bool-cases, inl, inr,
}
use durable_execution_rust_s.Prelude.Dict.{lookup, insert, lookup-insert, member}
use durable_execution_rust_s.Prelude.Sets.{Distinct}
use durable_execution_rust_s.Errors.{Result, ok, err}
use durable_execution_rust_s.Operation.Record.{Operation}
use durable_execution_rust_s.Operation.Update.{OperationUpdate}
use durable_execution_rust_s.Client.{Client, CheckpointResponse, NewExecutionState}
use durable_execution_rust_s.State.Model.{Operations, ExecutionState, insert_all, is_orphaned}
use durable_execution_rust_s.State.Cache.{update_local_cache_from_response}
use durable_execution_rust_s.State.Checkpoint.{
  Run, cache_response, after_checkpoint, call_service, unless_orphan,
  create_checkpoint_with_response,
}

abbrev pub ids_of : List Operation → List String
ids_of ops = map (λ (op : Operation). op.operation_id) ops

insert_all_absent :
    (ops : List Operation) (m : Operations) (id : String)
    → member id (ids_of ops) ≡ false
    → lookup id (insert_all ops m) ≡ lookup id m
unfolding insert_all member
insert_all_absent [] m id h = refl
insert_all_absent (op ∷ ops) m id h = ground (
  arith,
  insert_all_absent ops (insert op.operation_id op m) id,
  lookup-insert op.operation_id id op m,
)

-- Of operations with different ids, the one that is found under an id is the one that is cached.
pub lookup-insert_all :
    (ops : List Operation) (m : Operations) (id : String) (op : Operation)
    → Distinct (ids_of ops)
    → find (λ o. str_eq o.operation_id id) ops ≡ some op
    → lookup id (insert_all ops m) ≡ some op
unfolding insert_all
lookup-insert_all [] m id op d h = absurd (ground arith)
lookup-insert_all (o ∷ ops) m id op d h = ground (
  arith,
  insert_all_absent ops (insert o.operation_id o m) o.operation_id d.0,
  lookup-insert o.operation_id o.operation_id o m,
  eq_iff o.operation_id id,
  eq_iff o.operation_id o.operation_id,
  lookup-insert_all ops (insert o.operation_id o m) id op d.1,
)

module _ {S : Type 0} (client : Client S) where
  Caches : CheckpointResponse → ExecutionState → ExecutionState → Type 0
  Caches r s t =
      (new : NewExecutionState)
      → r.new_execution_state ≡ some new
      → t.operations ≡ insert_all new.operations s.operations

  called_Caches :
      (u : OperationUpdate) (s t : ExecutionState) (a : Result CheckpointResponse × S) (x : S)
      (r : CheckpointResponse)
      → after_checkpoint client u s a ≡ (ok r, t, x)
      → Caches r s t
  unfolding after_checkpoint cache_response update_local_cache_from_response Caches
  called_Caches u s t (ok r', w) x r h new e =
      let same : r'.new_execution_state ≡ some new = ground arith in
      sym (ap {A = Run CheckpointResponse S} {B = Operations} (λ p. p.1.operations) h)
      ∙ rw same refl
  called_Caches u s t (err e', w) x r h new e = absurd (ground arith)

  response_Caches :
      (p : Option String) (u : OperationUpdate) (s t : ExecutionState) (w x : S)
      (r : CheckpointResponse)
      → unless_orphan client p u s w (call_service client u s w) ≡ (ok r, t, x)
      → Caches r s t
  unfolding unless_orphan call_service
  response_Caches none u s t w x r h = called_Caches u s t _ x r h
  response_Caches (some parent) u s t w x r h = elim (Bool-cases (is_orphaned s (some parent))) [
    | inl orphan ↦ absurd (ground arith)
    | inr free ↦
        called_Caches u s t
          (client.checkpoint s.durable_execution_arn s.checkpoint_token (u ∷ []) w) x r
          (ground arith)
  ]

  -- After an accepted checkpoint the operations of the service's new state are in the cache.
  pub response_cached :
      (u : OperationUpdate) (s t : ExecutionState) (w x : S) (r : CheckpointResponse)
      (new : NewExecutionState)
      → create_checkpoint_with_response client u s w ≡ (ok r, t, x)
      → r.new_execution_state ≡ some new
      → t.operations ≡ insert_all new.operations s.operations
  unfolding create_checkpoint_with_response Caches
  response_cached u s t w x r new h e = response_Caches u.parent_id u s t w x r h new e
