-- ===== src/Batcher/Process.antt =====
-- `process_batch` of sdk/src/state/batcher.rs: one batch is sorted, sent with the current token, and
-- its waiters are answered. The receiver of an answer that has gone away is not noticed, as in the
-- source. `none` says that the fuel of the sort ran out.
pub mod Laws
mod Tests
use durable_execution_rust_s.Prelude.{
  ℕ, String, ◌<>◌, if◌then◌else◌, Bool, true, Option, none, some, and_then, List, [], ◌∷◌, map,
}
use mathlib.Core.Option
use durable_execution_rust_s.Errors.{
  DurableError, Result, ok, err, is_retriable, is_invalid_checkpoint_token, show_error,
}
use durable_execution_rust_s.Operation.Update.{OperationUpdate}
use durable_execution_rust_s.Client.{Client, CheckpointResponse}
use durable_execution_rust_s.Throttle.{Outcome, with_retry}
use durable_execution_rust_s.Batcher.{CheckpointRequest}
use durable_execution_rust_s.Batcher.Order.{sort_checkpoint_batch}

-- The shared token, whether the initial token is consumed, and what the waiters were told.
pub record CheckpointBatcher (S : Type 0) : Type 0 where
  pub checkpoint_token : String
  pub initial_token_consumed : Bool
  pub answers : List (ℕ × Result (Unit {0}))
  pub service : S

-- `completions.into_iter().flatten()`.
unfoldable pub waiters : List CheckpointRequest → List ℕ
waiters [] = []
waiters (r ∷ rs) =
    let rest = waiters rs in elim r.completion [ none ↦ rest | some waiter ↦ waiter ∷ rest ]

-- The message for the waiters of a failed batch.
unfoldable pub failure_message : DurableError → String
failure_message e =
    if is_invalid_checkpoint_token e
    then "Invalid checkpoint token - token may have been consumed. Lambda will retry with a fresh token. Original error: "
      <> show_error e
    else show_error e

unfoldable pub answer : Result CheckpointResponse → Result (Unit {0})
unfolding failure_message is_retriable
answer (ok response) = ok tt
answer (err e) = err (DurableError.checkpoint (failure_message e) (is_retriable e) none)

module _ {S : Type 0} where
  signal : List ℕ → Result (Unit {0}) → CheckpointBatcher S → CheckpointBatcher S
  signal ws told b = record b { answers = map (λ waiter. (waiter, told)) ws }

  handle_result : List ℕ → CheckpointBatcher S → Result CheckpointResponse → CheckpointBatcher S
  unfolding signal answer
  handle_result ws b (ok response) =
      signal ws (answer (ok response))
        (record b { checkpoint_token = response.checkpoint_token; initial_token_consumed = true })
  handle_result ws b (err e) = signal ws (answer (err e)) b

  after_send : List ℕ → CheckpointBatcher S → Outcome S CheckpointResponse → CheckpointBatcher S
  unfolding handle_result
  after_send ws b o = handle_result ws (record b { service = o.service }) o.result

  module _ (client : Client S) (arn : String) where
    send_sorted : CheckpointBatcher S → List CheckpointRequest → Option (CheckpointBatcher S)
    unfolding after_send waiters
    send_sorted b sorted = Option.map (after_send (waiters sorted) b) (
        with_retry (client.checkpoint arn b.checkpoint_token (map (λ r. r.operation) sorted))
          b.service)

    unfoldable pub process_batch :
        ℕ → List CheckpointRequest → CheckpointBatcher S → Option (CheckpointBatcher S)
    unfolding send_sorted
    process_batch fuel [] b = some b
    process_batch fuel (r ∷ rs) b = and_then (sort_checkpoint_batch fuel (r ∷ rs)) (send_sorted b)
