-- ===== src/Concurrency/Batch/Laws.antt =====
-- The counts and `get_results` of `BatchResult` (sdk/src/concurrency.rs).
use durable_execution_rust_s.Prelude.{
  suc, ◌+◌, ◌≤◌, ◌<◌, ◌≡◌, ◌↔◌, refl, ap, ◌∙◌, Bool, true, false, some, is_some, List, [], ◌∷◌,
  ◌++◌, length, select, all, any, All, map, arith, Bool-cases, inl, inr, length-select-le,
}
use durable_execution_rust_s.Errors.{ErrorObject, Result, ok, err, user_code_from}
use durable_execution_rust_s.Concurrency.Counters.{CompletionReason}
use durable_execution_rust_s.Concurrency.Batch.{
  BatchItem, BatchResult, is_success, is_tolerance_exceeded, is_succeeded, is_failed,
  collect_results, first_error, get_results, succeeded_items, success_count, failure_count,
  total_count, all_succeeded, has_failures,
}

module _ {ℓ} {A : Type ℓ} (p : A → Bool) where
  all-select : (xs : List A) → (all p xs ≡ true) ↔ (length (select p xs) ≡ length xs)
  all-select [] = (λ h. refl, λ h. refl)
  all-select (x ∷ xs) = elim (Bool-cases (p x)) [
    | inl t ↦ rw t (λ h. ap suc ((all-select xs).0 h), λ h. (all-select xs).1 (omega (arith, h)))
    | inr f ↦ rw f (λ h. cc, λ h. absurd (omega (arith, h, length-select-le p xs)))
  ]

  any-select : (xs : List A) → (any p xs ≡ true) ↔ (0 < length (select p xs))
  any-select [] = (λ h. absurd (ground arith), λ h. absurd (omega arith))
  any-select (x ∷ xs) = elim (Bool-cases (p x)) [
    | inl t ↦ rw t (λ h. omega arith, λ h. refl)
    | inr f ↦ rw f (any-select xs)
  ]

module _ {T : Type 0} where
  -- An item has a result exactly when it succeeded, as the constructors of `BatchItem` make it.
  abbrev pub HasOwnResult : BatchItem T → Type 0
  HasOwnResult item = is_some item.result ≡ is_success item.status

  parts-le :
      (items : List (BatchItem T))
      → length (select is_succeeded items) + length (select is_failed items) ≤ length items
  unfolding is_succeeded is_failed
  parts-le [] = omega arith
  parts-le (x ∷ xs) = ground (arith, parts-le xs)

  collect_results-select :
      (items : List (BatchItem T))
      → All HasOwnResult items
      → map (λ item. item.result) (select is_succeeded items) ≡ map some (collect_results items)
  unfolding collect_results is_succeeded
  collect_results-select [] h = refl
  collect_results-select (x ∷ xs) h = ground (arith, collect_results-select xs h.1)

  -- Succeeded and failed items are at most all items; all items succeeded exactly when their count
  -- is the total; there are failures exactly when their count is positive.
  pub batch_counts :
      (b : BatchResult T)
      → (success_count b + failure_count b ≤ total_count b)
        × ((all_succeeded b ≡ true) ↔ (success_count b ≡ total_count b))
        × ((has_failures b ≡ true) ↔ (0 < failure_count b))
  unfolding success_count failure_count total_count all_succeeded has_failures
  batch_counts b = (parts-le b.items, all-select is_succeeded b.items, any-select is_failed b.items)

  pub results_of :
      (b : BatchResult T)
      → All HasOwnResult b.items
      → is_tolerance_exceeded b.completion_reason ≡ false
      → (vs : List T) × (get_results b ≡ ok vs)
        × (map (λ item. item.result) (succeeded_items b) ≡ map some vs)
  unfolding get_results succeeded_items
  results_of b h r = (collect_results b.items, rw r refl, collect_results-select b.items h)

  first_failed :
      (pre rest : List (BatchItem T)) (item : BatchItem T)
      → any is_failed pre ≡ false
      → is_failed item ≡ true
      → select is_failed (pre ++ item ∷ rest) ≡ item ∷ select is_failed rest
  first_failed [] rest item h f = rw f refl
  first_failed (x ∷ pre) rest item h f = ground (arith, first_failed pre rest item)

  -- When the tolerance was exceeded and the first failed item has a stored error, get_results
  -- fails with that error.
  pub get_results_first_error :
      (pre rest : List (BatchItem T)) (item : BatchItem T) (e : ErrorObject)
      → any is_failed pre ≡ false
      → is_failed item ≡ true
      → item.error ≡ some e
      → get_results (record {
        items = pre ++ item ∷ rest;
        completion_reason = CompletionReason.failure_tolerance_exceeded;
      })
        ≡ err (user_code_from e)
  unfolding get_results
  get_results_first_error pre rest item e h f s =
      ap {B = Result (List T)} (λ l. err (first_error l)) (first_failed pre rest item h f)
      ∙ rw s refl
