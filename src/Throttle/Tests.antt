-- ===== src/Throttle/Tests.antt =====
-- The retry loop at a service that throttles until it has been called three times.
use durable_execution_rust_s.Prelude.{ℕ, suc, ltb, if◌then◌else◌, ◌≡◌, refl, none, some, [], ◌∷◌}
use durable_execution_rust_s.Errors.{
  DurableError, Result, ok, err, is_throttling, get_retry_after_ms,
}
use durable_execution_rust_s.Throttle.{with_retry, initial_delay_ms}
use durable_execution_rust_s.Throttle.Laws.{EndsAt, with_retry_ends}

abbrev busy_twice : ℕ → Result ℕ × ℕ
busy_twice calls =
    (if ltb calls 2 then err (DurableError.throttling "slow down" none) else ok calls, suc calls)

two_sleeps :
    with_retry busy_twice 0 ≡ some (record { result = ok 2; service = 3; sleeps = 100 ∷ 200 ∷ [] })
unfolding with_retry is_throttling get_retry_after_ms
two_sleeps = refl

with_retry_ends_example :
    (k : ℕ) × EndsAt busy_twice 0 initial_delay_ms 0 (with_retry busy_twice 0) k
with_retry_ends_example = with_retry_ends busy_twice 0
