-- ===== src/Batcher/Process/Laws.antt =====
-- `process_batch` of sdk/src/state/batcher.rs: its waiters, its token and its call of the service.
use durable_execution_rust_s.Prelude.{
  ℕ, ◌≡◌, refl, ◌∙◌, String, ◌||◌, ◌==◌, if◌then◌else◌, none, some, List, [], ◌∷◌, map, All, arith,
  Option-cases, inl, inr,
}
use durable_execution_rust_s.Prelude.Tally.{tally}
use durable_execution_rust_s.Errors.{Result, ok, err, is_ok}
use durable_execution_rust_s.Client.{Client, CheckpointResponse}
use durable_execution_rust_s.Throttle.{Outcome, with_retry}
use durable_execution_rust_s.Throttle.Laws.{with_retry_ends}
use durable_execution_rust_s.Batcher.{CheckpointRequest}
use durable_execution_rust_s.Batcher.Order.{sort_checkpoint_batch}
use durable_execution_rust_s.Batcher.Order.Laws.{Acyclic, sort_checkpoint_batch_ends}
use durable_execution_rust_s.Batcher.Process.{
  CheckpointBatcher, waiters, answer, signal, handle_result, after_send, send_sorted, process_batch,
}

-- How often waiter `k` waits for a request, and how often it is answered.
abbrev waits : ℕ → CheckpointRequest → ℕ
waits k r = elim r.completion [ none ↦ 0 | some waiter ↦ if waiter == k then 1 else 0 ]

abbrev is_told : ℕ → ℕ × Result (Unit {0}) → ℕ
is_told k (waiter, told) = if waiter == k then 1 else 0

abbrev WasTold : Result (Unit {0}) → ℕ × Result (Unit {0}) → Type 0
WasTold told (waiter, what) = what ≡ told

-- The token after an answer of the service.
abbrev token_after : Result CheckpointResponse → String → String
token_after (ok response) token = response.checkpoint_token
token_after (err e) token = token

told_once :
    (k : ℕ) (told : Result (Unit {0})) (rs : List CheckpointRequest)
    → tally (is_told k) (map (λ waiter. (waiter, told)) (waiters rs)) ≡ tally (waits k) rs
unfolding waiters
told_once k told [] = refl
told_once k told (r ∷ rs) = elim (Option-cases r.completion) [
  | inl e ↦ rw e (omega (arith, told_once k told rs))
  | inr (waiter, e) ↦ rw e (omega (arith, told_once k told rs))
]

told_same :
    (told : Result (Unit {0})) (ws : List ℕ)
    → All (WasTold told) (map (λ waiter. (waiter, told)) ws)
told_same told [] = tt
told_same told (w ∷ ws) = (refl, told_same told ws)

module _ {S : Type 0} where
  -- What a batch leaves behind when the service answered `o`.
  pub record Answered (batch : List CheckpointRequest) (b b' : CheckpointBatcher S)
      (o : Outcome S CheckpointResponse) : Type 0 where
    pub each_waiter_once : (k : ℕ) → tally (is_told k) b'.answers ≡ tally (waits k) batch
    pub all_the_same : All (WasTold (answer o.result)) b'.answers
    pub token : b'.checkpoint_token ≡ token_after o.result b.checkpoint_token
    pub consumed : b'.initial_token_consumed ≡ (is_ok o.result || b.initial_token_consumed)
    pub world : b'.service ≡ o.service

  handle_result-Answered :
      (batch sorted : List CheckpointRequest) (b : CheckpointBatcher S)
      (result : Result CheckpointResponse) (s : S) (sleeps : List ℕ)
      → ((k : ℕ) → tally (waits k) sorted ≡ tally (waits k) batch)
      → Answered batch b
          (handle_result (waiters sorted) (record b { service = s }) result)
          (record { result = result; service = s; sleeps = sleeps })
  unfolding handle_result signal
  handle_result-Answered batch sorted b (ok response) s sleeps same = record {
    each_waiter_once = λ k. told_once k (answer (ok response)) sorted ∙ same k;
    all_the_same = told_same (answer (ok response)) (waiters sorted);
    token = refl;
    consumed = refl;
    world = refl;
  }
  handle_result-Answered batch sorted b (err e) s sleeps same = record {
    each_waiter_once = λ k. told_once k (answer (err e)) sorted ∙ same k;
    all_the_same = told_same (answer (err e)) (waiters sorted);
    token = refl;
    consumed = refl;
    world = refl;
  }

  module _ (client : Client S) (arn : String) (fuel : ℕ) (rank : String → ℕ) where
    -- If no operation of a batch that is not empty is above itself and the fuel is above the
    -- ranks, processing it ends: the service is sent the sorted batch with the current token, each
    -- waiter is told once for each request it waits for, all are told the same, and if the service
    -- accepted the batch the token becomes the new one and the initial token counts as consumed;
    -- otherwise both stay as they were.
    pub process_batch_ends :
        (r : CheckpointRequest) (rs : List CheckpointRequest) (b : CheckpointBatcher S)
        → Acyclic fuel (r ∷ rs) rank
        → (sorted : List CheckpointRequest) × (o : Outcome S CheckpointResponse)
          × (b' : CheckpointBatcher S) × (sort_checkpoint_batch fuel (r ∷ rs) ≡ some sorted)
          × (with_retry
                (client.checkpoint arn b.checkpoint_token (map (λ q. q.operation) sorted))
                b.service
              ≡ some o)
          × (process_batch client arn fuel (r ∷ rs) b ≡ some b')
          × Answered (r ∷ rs) b b' o
    unfolding process_batch send_sorted after_send
    process_batch_ends r rs b acyclic =
        let (sorted, s, t, last) = sort_checkpoint_batch_ends fuel (r ∷ rs) rank acyclic in
        let send = client.checkpoint arn b.checkpoint_token (map (λ q. q.operation) sorted) in
        let (k, ends) = with_retry_ends send b.service in
        (
          sorted,
          _,
          _,
          s,
          ends.outcome,
          rw (s, ends.outcome) refl,
          handle_result-Answered (r ∷ rs) sorted b _ _ _ (λ j. t (waits j)),
        )
