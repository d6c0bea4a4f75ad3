-- ===== src/State/Cache/Retries.antt =====
-- A step that is retried again and again, in `update_local_cache_from_update` of
-- sdk/src/state/execution_state.rs.
use durable_execution_rust_s.Prelude.{
  ℕ, ◌+◌, ◌%◌, ◌^◌, ◌<◌, String, ◌≡◌, refl, ◌∙◌, ap, true, Option, some, is_some, unwrap_or, ◌||◌,
  arith, eq_iff, if◌then◌else◌, List, [], ◌∷◌, length, All,
}
use durable_execution_rust_s.Prelude.Dict.{lookup}
use durable_execution_rust_s.Operation.Kinds.{OperationAction, OperationType}
use durable_execution_rust_s.Operation.Record.{Operation, get_attempt, get_retry_payload}
use durable_execution_rust_s.Operation.Update.{OperationUpdate}
use durable_execution_rust_s.State.Model.{ExecutionState}
use durable_execution_rust_s.State.Cache.{entry_after, update_local_cache_from_update}
use durable_execution_rust_s.State.Cache.Laws.{cache_lookup}

-- A retry of the operation that carries a payload or step options.
abbrev pub RetryOf : String → OperationUpdate → Type 0
RetryOf id u =
    (u.action ≡ OperationAction.retry)
    × (u.operation_id ≡ id)
    × ((is_some u.result || is_some u.step_options) ≡ true)

abbrev pub update_all : List OperationUpdate → ExecutionState → ExecutionState
update_all [] s = s
update_all (u ∷ us) s = update_all us (update_local_cache_from_update u s)

-- The last payload that an update carries, or else the stored one.
abbrev pub last_payload : List OperationUpdate → Option String → Option String
last_payload [] p = p
last_payload (u ∷ us) p = last_payload us (if is_some u.result then u.result else p)

-- The attempts that are counted, from 0 where there is no counter.
abbrev pub attempts : Operation → ℕ
attempts op = unwrap_or (get_attempt op) 0

retried_entry :
    (u : OperationUpdate) (id : String) (s : ExecutionState) (op : Operation)
    → RetryOf id u
    → lookup id s.operations ≡ some op
    → op.operation_type ≡ OperationType.step
    → (op' : Operation) × (lookup id (update_local_cache_from_update u s).operations ≡ some op')
      × (op'.operation_type ≡ OperationType.step)
      × (attempts op' ≡ (attempts op + 1) % 2 ^ 32)
      × (get_retry_payload op' ≡ (if is_some u.result then u.result else get_retry_payload op))
unfolding get_attempt get_retry_payload entry_after
retried_entry u id s op (retry, own, carries) here kind = (
  entry_after u (some op),
  ground (arith, cache_lookup u s id, eq_iff u.operation_id id),
  ground arith,
  ground arith,
  ground arith,
)

-- Retries of a step that is in the cache, each with a payload or step options, are counted one by
-- one, modulo 2 ^ 32, and leave the last payload that one of them carried, or else the stored one.
pub retries_counted :
    (us : List OperationUpdate) (id : String) (s : ExecutionState) (op : Operation)
    → All (RetryOf id) us
    → lookup id s.operations ≡ some op
    → op.operation_type ≡ OperationType.step
    → attempts op < 2 ^ 32
    → (op' : Operation) × (lookup id (update_all us s).operations ≡ some op')
      × (op'.operation_type ≡ OperationType.step)
      × (attempts op' ≡ (attempts op + length us) % 2 ^ 32)
      × (get_retry_payload op' ≡ last_payload us (get_retry_payload op))
retries_counted [] id s op all here kind small = (op, here, kind, omega arith, refl)
retries_counted (u ∷ us) id s op (retry, all) here kind small =
    let (op₁, here₁, kind₁, count₁, payload₁) = retried_entry u id s op retry here kind in
    let (op', here', kind', count', payload') =
      retries_counted us id (update_local_cache_from_update u s) op₁ all here₁ kind₁
        (omega arith) in
    (op', here', kind', omega arith, payload' ∙ ap (last_payload us) payload₁)
