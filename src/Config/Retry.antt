-- ===== src/Config/Retry.antt =====
-- `StepSemantics`, `ErrorPattern` and `RetryableErrorFilter` of sdk/src/config.rs. The type `R` of
-- compiled regular expressions and their `is_match` are parameters.
use durable_execution_rust_s.Prelude.{
  String, contains_text, str_eq, if◌then◌else◌, Bool, true, ◌||◌, ◌&&◌, List, any, is_empty,
}

pub data StepSemantics : Type 0 where
  at_most_once_per_retry at_least_once_per_retry : StepSemantics

pub data ErrorPattern (R : Type 0) : Type 0 where
  contains : String → ErrorPattern R
  regex : R → ErrorPattern R

pub record RetryableErrorFilter (R : Type 0) : Type 0 where
  pub patterns : List (ErrorPattern R)
  pub error_types : List String

module _ {R : Type 0} (is_match : R → String → Bool) where
  matches : String → ErrorPattern R → Bool
  matches message (ErrorPattern.contains part) = contains_text message part
  matches message (ErrorPattern.regex r) = is_match r message

  unfoldable pub is_retryable : RetryableErrorFilter R → String → Bool
  unfolding matches
  is_retryable filter message =
      if is_empty filter.patterns && is_empty filter.error_types
      then true
      else any (matches message) filter.patterns

  unfoldable pub is_retryable_with_type : RetryableErrorFilter R → String → String → Bool
  unfolding is_retryable
  is_retryable_with_type filter message error_type =
      if is_empty filter.patterns && is_empty filter.error_types
      then true
      else any (λ t. str_eq t error_type) filter.error_types || is_retryable filter message
