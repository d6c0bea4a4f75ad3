-- ===== src/Throttle.antt =====
-- The retry loop for throttled calls, which stands twice in the source:
-- `checkpoint_with_retry` (sdk/src/state/batcher.rs) and `get_operations_with_retry`
-- (sdk/src/state/execution_state.rs). The delays that it sleeps are part of the outcome.
pub mod Laws
mod Tests
use durable_execution_rust_s.Prelude.{
  ℕ, zero, suc, ◌+◌, ◌*◌, min, leb, if◌then◌else◌, Option, none, some, unwrap_or, List, [], ◌∷◌,
}
use durable_execution_rust_s.Errors.{
  DurableError, Result, ok, err, is_throttling, get_retry_after_ms,
}

abbrev pub max_retries : ℕ
max_retries = 5

abbrev pub initial_delay_ms : ℕ
initial_delay_ms = 100

abbrev pub max_delay_ms : ℕ
max_delay_ms = 10000

abbrev pub backoff_multiplier : ℕ
backoff_multiplier = 2

-- The result, the state of the service, and the sleeps in milliseconds.
pub record Outcome {ℓ} (S : Type 0) (A : Type ℓ) : Type ℓ where
  pub result : Result A
  pub service : S
  pub sleeps : List ℕ

module _ {ℓ} {S : Type 0} {A : Type ℓ} where
  add_sleep : ℕ → Option (Outcome S A) → Option (Outcome S A)
  add_sleep ms none = none
  add_sleep ms (some o) = some (record o { sleeps = ms ∷ o.sleeps })

  -- The `match` on the result of a call; `again attempt delay` is the rest of the loop.
  after_call : (ℕ → ℕ → S → Option (Outcome S A)) → ℕ → ℕ → Result A × S → Option (Outcome S A)
  unfolding add_sleep
  after_call again attempt delay (ok a, s) =
      some (record { result = ok a; service = s; sleeps = [] })
  after_call again attempt delay (err e, s) =
      let stop : Option (Outcome S A) =
        some (record { result = err e; service = s; sleeps = [] }) in
      if is_throttling e
      then (if leb (attempt + 1) max_retries
          then add_sleep (unwrap_or (get_retry_after_ms e) delay)
              (again (attempt + 1) (min (delay * backoff_multiplier) max_delay_ms) s)
          else stop)
      else stop

  -- `none` says that the fuel ran out.
  retry_loop : (S → Result A × S) → ℕ → ℕ → ℕ → S → Option (Outcome S A)
  unfolding after_call
  retry_loop call zero attempt delay s = none
  retry_loop call (suc fuel) attempt delay s =
      after_call (retry_loop call fuel) attempt delay (call s)

  -- The fuel is for the first call and the retries.
  unfoldable pub with_retry : (S → Result A × S) → S → Option (Outcome S A)
  unfolding retry_loop
  with_retry call s = retry_loop call (suc max_retries) 0 initial_delay_ms s
