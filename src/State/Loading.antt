-- ===== src/State/Loading.antt =====
-- Loading the rest of the history: `get_operations_with_retry`, `load_more_operations` and
-- `load_all_operations` of sdk/src/state/execution_state.rs.
pub mod Laws
mod Tests
use durable_execution_rust_s.Prelude.{
  ℕ, zero, suc, ◌≤◌, ◌<◌, String, ◌≡◌, refl, Bool, true, false, Option, none, some, arith,
  Option-cases, inl, inr,
}
use durable_execution_rust_s.Errors.{DurableError, Result, ok, err}
use durable_execution_rust_s.Client.{Client, GetOperationsResponse}
use durable_execution_rust_s.Throttle.{Outcome, with_retry}
use durable_execution_rust_s.State.Model.{ExecutionState, insert_all}
use durable_execution_rust_s.State.Checkpoint.{Run}

module _ {S : Type 0} (client : Client S) where
  unfoldable pub get_operations_with_retry :
      ExecutionState → String → S → Option (Outcome S GetOperationsResponse)
  get_operations_with_retry s marker w =
      with_retry (client.get_operations s.durable_execution_arn marker) w

  page_result : ExecutionState → Result GetOperationsResponse → S → Run Bool S
  page_result s (ok page) w = (
    ok true,
    record s {
      operations = insert_all page.operations s.operations;
      next_marker = page.next_marker;
    },
    w,
  )
  page_result s (err e) w = (err e, s, w)

  -- The answer to the request for one page; `none` is for fuel that ran out in the retry loop.
  after_page : ExecutionState → Option (Outcome S GetOperationsResponse) → Option (Run Bool S)
  unfolding page_result
  after_page s none = none
  after_page s (some o) = some (page_result s o.result o.service)

  load_page : Option String → ExecutionState → S → Option (Run Bool S)
  unfolding after_page get_operations_with_retry
  load_page none s w = some (ok false, s, w)
  load_page (some marker) s w = after_page s (get_operations_with_retry s marker w)

  unfoldable pub load_more_operations : ExecutionState → S → Option (Run Bool S)
  unfolding load_page
  load_more_operations s w = load_page s.next_marker s w

  -- `while self.load_more_operations().await? {}`; `none` says that the fuel ran out.
  after_more :
      (ExecutionState → S → Option (Run (Unit {0}) S))
      → Option (Run Bool S)
      → Option (Run (Unit {0}) S)
  after_more again none = none
  after_more again (some (ok true, s, w)) = again s w
  after_more again (some (ok false, s, w)) = some (ok tt, s, w)
  after_more again (some (err e, s, w)) = some (err e, s, w)

  unfoldable pub load_all_operations : ℕ → ExecutionState → S → Option (Run (Unit {0}) S)
  unfolding after_more
  load_all_operations zero s w = none
  load_all_operations (suc fuel) s w =
      after_more (load_all_operations fuel) (load_more_operations s w)
