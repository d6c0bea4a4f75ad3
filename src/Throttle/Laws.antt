-- ===== src/Throttle/Laws.antt =====
-- The end of the retry loop of sdk/src/state/batcher.rs and sdk/src/state/execution_state.rs.
use durable_execution_rust_s.Prelude.{
  ℕ, zero, suc, ◌+◌, ◌*◌, ◌≤◌, ◌<◌, ◌≡◌, refl, min, Bool, true, false, Option, none, some,
  unwrap_or, List, [], ◌∷◌, arith, Bool-cases, inl, inr,
}
use native.Mathlib.Decide.{dec_lt}
use durable_execution_rust_s.Errors.{Result, ok, err, is_throttling, get_retry_after_ms}
use durable_execution_rust_s.Throttle.{
  max_retries, initial_delay_ms, max_delay_ms, backoff_multiplier, Outcome, add_sleep, after_call,
  retry_loop, with_retry,
}

abbrev pub throttled {ℓ} : {A : Type ℓ} → Result A → Bool
throttled (ok a) = false
throttled (err e) = is_throttling e

abbrev pub retry_after {ℓ} : {A : Type ℓ} → Result A → Option ℕ
retry_after (ok a) = none
retry_after (err e) = get_retry_after_ms e

module _ {ℓ} {S : Type 0} {A : Type ℓ} (again : ℕ → ℕ → S → Option (Outcome S A)) where
  after_call_again :
      (attempt delay : ℕ) (r : Result A × S)
      → throttled r.0 ≡ true
      → attempt + 1 ≤ max_retries
      → after_call again attempt delay r
        ≡ add_sleep
            (unwrap_or (retry_after r.0) delay)
            (again (attempt + 1) (min (delay * backoff_multiplier) max_delay_ms) r.1)
  unfolding after_call
  after_call_again attempt delay (ok a, s) t le = cc
  after_call_again attempt delay (err e, s) t le = rw t (ground arith)

  after_call_stop :
      (attempt delay : ℕ) (r : Result A × S)
      → (throttled r.0 ≡ true → attempt ≡ max_retries)
      → after_call again attempt delay r
        ≡ some (record { result = r.0; service = r.1; sleeps = [] })
  unfolding after_call
  after_call_stop attempt delay (ok a, s) last = refl
  after_call_stop attempt delay (err e, s) last = ground arith

module _ {ℓ} {S : Type 0} {A : Type ℓ} (call : S → Result A × S) where
  -- The answer to the call number `k`, counted from 0, when every answer leads to the next call.
  abbrev pub nth_call : ℕ → S → Result A × S
  nth_call zero s = call s
  nth_call (suc k) s = nth_call k (call s).1

  -- The sleeps before call number `k`: what the service asks for, else the doubled delay.
  abbrev pub sleeps_before : ℕ → ℕ → S → List ℕ
  sleeps_before zero delay s = []
  sleeps_before (suc k) delay s =
      unwrap_or (retry_after (call s).0) delay
      ∷ sleeps_before k (min (delay * backoff_multiplier) max_delay_ms) (call s).1

  abbrev pub AllThrottled : ℕ → S → Type 0
  AllThrottled zero s = Unit
  AllThrottled (suc k) s = (throttled (call s).0 ≡ true) × AllThrottled k (call s).1

  -- The loop, entered after `attempt` retries, ends with call number `k`.
  pub record EndsAt (attempt delay : ℕ) (s : S) (r : Option (Outcome S A)) (k : ℕ) : Type ℓ where
    pub retries_capped : attempt + k ≤ max_retries
    pub earlier_throttled : AllThrottled k s
    pub gives_up_last : throttled (nth_call k s).0 ≡ true → attempt + k ≡ max_retries
    pub outcome :
        r
        ≡ some (record {
          result = (nth_call k s).0;
          service = (nth_call k s).1;
          sleeps = sleeps_before k delay s;
        })

  retry_ends :
      (again : ℕ → ℕ → S → Option (Outcome S A)) (attempt delay k : ℕ) (s : S)
      → throttled (call s).0 ≡ true
      → attempt + 1 ≤ max_retries
      → EndsAt
          (attempt + 1)
          (min (delay * backoff_multiplier) max_delay_ms)
          (call s).1
          (again (attempt + 1) (min (delay * backoff_multiplier) max_delay_ms) (call s).1)
          k
      → EndsAt attempt delay s (after_call again attempt delay (call s)) (suc k)
  unfolding add_sleep
  retry_ends again attempt delay k s t le ends = record {
    retries_capped = omega (arith, ends.retries_capped);
    earlier_throttled = (t, ends.earlier_throttled);
    gives_up_last = λ last. omega (arith, ends.gives_up_last last);
    outcome = rw (after_call_again again attempt delay (call s) t le) (rw ends.outcome refl);
  }

  stop_ends :
      (again : ℕ → ℕ → S → Option (Outcome S A)) (attempt delay : ℕ) (s : S)
      → attempt ≤ max_retries
      → (throttled (call s).0 ≡ true → attempt ≡ max_retries)
      → EndsAt attempt delay s (after_call again attempt delay (call s)) 0
  stop_ends again attempt delay s le last = record {
    retries_capped = omega arith;
    earlier_throttled = tt;
    gives_up_last = λ t. omega (arith, last t);
    outcome = after_call_stop again attempt delay (call s) last;
  }

  loop_ends :
      (fuel attempt delay : ℕ) (s : S)
      → attempt ≤ max_retries
      → max_retries < attempt + fuel
      → (k : ℕ) × EndsAt attempt delay s (retry_loop call fuel attempt delay s) k
  unfolding retry_loop
  loop_ends zero attempt delay s h k = absurd (omega arith)
  loop_ends (suc fuel) attempt delay s h k = elim (Bool-cases (throttled (call s).0)) [
    | inr go ↦ (0, stop_ends (retry_loop call fuel) attempt delay s h (λ t. cc))
    | inl t ↦ elim (dec_lt attempt max_retries) [
      | no last ↦ (0, stop_ends (retry_loop call fuel) attempt delay s h (λ _. omega arith))
      | yes more ↦
          let (j, ends) =
            loop_ends fuel (attempt + 1) (min (delay * backoff_multiplier) max_delay_ms) (call s).1
              (omega arith) (omega arith) in
          (suc j, retry_ends (retry_loop call fuel) attempt delay j s t (omega arith) ends)
    ]
  ]

  -- The retry loop ends within its fuel: it returns the answer of some call, at most the fifth
  -- retry, all calls before it were throttled, a throttled answer is returned only after all five
  -- retries, and the sleeps are those that the service asked for, or else 100 ms doubled each time
  -- up to 10 s.
  pub with_retry_ends : (s : S) → (k : ℕ) × EndsAt 0 initial_delay_ms s (with_retry call s) k
  unfolding with_retry
  with_retry_ends s = loop_ends (suc max_retries) 0 initial_delay_ms s (omega arith) (omega arith)
