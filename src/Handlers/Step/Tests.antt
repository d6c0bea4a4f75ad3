-- ===== src/Handlers/Step/Tests.antt =====
-- Steps that return the text of a value, against a service that takes every checkpoint.
use durable_execution_rust_s.Prelude.{
  ℕ, suc, String, ◌≡◌, refl, sym, arith, ◌⊎◌, inl, inr, Bool, true, false, Option, none, some, [],
  ◌∷◌,
}
use durable_execution_rust_s.Prelude.Dict.{lookup, insert}
use durable_execution_rust_s.Errors.{DurableError, ok, err, new_error_object}
use durable_execution_rust_s.Operation.Kinds.{
  OperationType, OperationStatus, is_terminal, status_eq,
}
use durable_execution_rust_s.Operation.Record.{Operation, new_operation, get_result}
use durable_execution_rust_s.Operation.Update
use durable_execution_rust_s.CheckpointedResult
use durable_execution_rust_s.State.Cache.{update_local_cache_from_update}
use durable_execution_rust_s.Client.{Client, Sender}
use durable_execution_rust_s.State.Model.{
  ExecutionState, CheckpointingMode, get_checkpoint_result, with_checkpointing_mode,
}
use durable_execution_rust_s.State.Checkpoint.{Run, create_checkpoint}
use durable_execution_rust_s.State.Checkpoint.Caching.{Quiet}
use durable_execution_rust_s.State.Tracking.{track_replay}
use durable_execution_rust_s.Serdes.{JsonSerDes, RoundTrip}
use durable_execution_rust_s.Config.Retry.{StepSemantics, ErrorPattern, RetryableErrorFilter}
use durable_execution_rust_s.Handlers.{OperationIdentifier}
use durable_execution_rust_s.Handlers.Step.{
  StepContext, StepConfig, succeeded_value, step_handler, create_start_update,
  create_succeed_update, create_fail_update,
}
use durable_execution_rust_s.Handlers.Step.Settled.{recorded}
use durable_execution_rust_s.Handlers.Step.Laws.{settled_step_is_not_run, step_result_replayed}
use durable_execution_rust_s.Handlers.Step.Cell.{Steps}
use durable_execution_rust_s.Handlers.Step.Memo.{step_refines_memo}
use durable_execution_rust_s.Handlers.Step.Failures.{
  filter_has_no_effect, user_code_error, step_failure_replayed,
}
use durable_execution_rust_s.Handlers.Step.Executed.{unsettled_step_runs}

-- The world counts the calls of the service and of the function.
abbrev service : Client ℕ
service = record {
  checkpoint = λ arn token updates calls.
      (ok (record { checkpoint_token = "next"; new_execution_state = none }), suc calls);
  get_operations = λ arn marker calls. (err (DurableError.validation "no history"), calls);
}

service-Quiet : Quiet service
service-Quiet arn token updates w r h = ground arith

abbrev no_sender : Sender ℕ
no_sender = λ u is_sync token calls. (err (DurableError.validation "no sender"), token, calls)

-- Texts, written as they are.
abbrev plain : JsonSerDes String
plain = record { serialize = λ v. inl v; deserialize = λ text. inl text }

plain-RoundTrip : RoundTrip plain
plain-RoundTrip v text h = sym h

abbrev no_regex : ℕ → String → Bool
no_regex = λ r text. false

abbrev pay : OperationIdentifier
pay = record { operation_id = "pay"; parent_id = none; name = some "a payment" }

abbrev once : StepConfig ℕ
once = record {
  step_semantics = StepSemantics.at_most_once_per_retry;
  retryable_error_filter = none;
}

abbrev often : StepConfig ℕ
often = record {
  step_semantics = StepSemantics.at_least_once_per_retry;
  retryable_error_filter = none;
}

abbrev pays : StepContext → ℕ → (String ⊎ String) × ℕ
pays = λ context calls. (inl "paid", suc calls)

abbrev refuses : StepContext → ℕ → (String ⊎ String) × ℕ
refuses = λ context calls. (inr "no funds", suc calls)

abbrev fresh_state : ExecutionState
fresh_state =
    with_checkpointing_mode "arn" "token" (record { operations = []; next_marker = none })
      CheckpointingMode.eager

abbrev paid : Operation
paid = record (new_operation "pay" OperationType.step) {
  status = OperationStatus.succeeded;
  result = some "paid";
}

abbrev state_of : Operation → ExecutionState
state_of op =
    with_checkpointing_mode "arn" "token" (record { operations = op ∷ []; next_marker = none })
      CheckpointingMode.eager

abbrev first_run : Run String ℕ
first_run = step_handler plain service no_sender no_regex pays pay once fresh_state 0

-- Two checkpoints and one call.
first_run_paid : ((first_run.0 ≡ ok "paid") × (first_run.2 ≡ 3))
unfolding step_handler with_checkpointing_mode new_operation lookup insert get_checkpoint_result
    create_checkpoint Update.start Update.succeed update_local_cache_from_update
first_run_paid = (refl, refl)

step_result_replayed_example :
    step_handler plain service no_sender no_regex refuses pay often first_run.1 9
    ≡ (ok "paid", track_replay first_run.1 "pay", 9)
unfolding step_handler with_checkpointing_mode new_operation lookup insert get_checkpoint_result
    create_checkpoint Update.start Update.succeed update_local_cache_from_update
step_result_replayed_example =
    step_result_replayed service no_sender plain no_regex service-Quiet plain-RoundTrip pays once
      pay "paid" fresh_state 0 first_run.1 3 (λ op missing. absurd cc) refl refuses often 9

settled_step_is_not_run_example :
    step_handler plain service no_sender no_regex refuses pay often (state_of paid) 7
    ≡ (ok "paid", track_replay (state_of paid) "pay", 7)
unfolding with_checkpointing_mode new_operation lookup insert is_terminal recorded succeeded_value
    get_result
settled_step_is_not_run_example =
    settled_step_is_not_run service no_sender plain no_regex refuses often pay (state_of paid) 7
      (ok "paid") (paid, refl, refl, refl, refl)

picky : Option (RetryableErrorFilter ℕ)
picky = some (record { patterns = ErrorPattern.contains "timeout" ∷ []; error_types = [] })

filter_has_no_effect_example :
    step_handler plain service no_sender no_regex refuses pay often fresh_state 0
    ≡ step_handler plain service no_sender no_regex refuses pay
        (record often { retryable_error_filter = picky })
        fresh_state
        0
filter_has_no_effect_example =
    filter_has_no_effect service no_sender plain no_regex refuses often picky pay fresh_state 0

abbrev failure_recorded : Run (Unit {0}) ℕ
failure_recorded =
    create_checkpoint service no_sender
      (create_fail_update pay (new_error_object "UserCodeError" "no funds")) true fresh_state 1

step_failure_replayed_example :
    (step_handler plain service no_sender no_regex refuses pay often fresh_state 0
      ≡ (err (user_code_error "no funds"), failure_recorded.1, 2))
    × ((func' : StepContext → ℕ → (String ⊎ String) × ℕ) (config' : StepConfig ℕ) (later : ℕ)
        → step_handler plain service no_sender no_regex func' pay config' failure_recorded.1 later
          ≡ (err (user_code_error "no funds"), track_replay failure_recorded.1 "pay", later))
unfolding with_checkpointing_mode lookup create_checkpoint create_fail_update Update.fail
step_failure_replayed_example =
    step_failure_replayed service no_sender plain no_regex refuses often pay fresh_state
      failure_recorded.1 0 1 2 "no funds" service-Quiet refl refl refl refl

abbrev interrupted : Operation
interrupted = new_operation "pay" OperationType.step

-- What the interrupted step writes when it is executed again, in a world of two counted calls.
abbrev restarted : Run (Unit {0}) ℕ
restarted =
    create_checkpoint service no_sender (create_start_update pay) true (state_of interrupted) 0

abbrev ended : Run (Unit {0}) ℕ
ended =
    create_checkpoint service no_sender (create_succeed_update pay (some "paid")) true restarted.1 2

unsettled_step_runs_example :
    step_handler plain service no_sender no_regex pays pay once (state_of interrupted) 0
    ≡ (ok "paid", ended.1, 3)
unfolding with_checkpointing_mode new_operation lookup insert create_checkpoint create_start_update
    create_succeed_update Update.start Update.succeed CheckpointedResult.is_ready status_eq
    update_local_cache_from_update
unsettled_step_runs_example =
    unsettled_step_runs plain service no_sender pay no_regex pays once (some interrupted)
      (state_of interrupted) restarted.1 ended.1 0 1 2 3 (inl "paid") (ok "paid") refl
      (inr (interrupted, refl, refl, inl refl)) (inl (refl, refl, refl)) refl
      (inl ("paid", "paid", refl, refl, refl, refl))

step_refines_memo_example :
    Steps plain "pay" none
      (step_handler plain service no_sender no_regex pays pay once fresh_state 0)
unfolding with_checkpointing_mode lookup
step_refines_memo_example =
    step_refines_memo service service-Quiet no_sender plain plain-RoundTrip no_regex pays pay once
      none fresh_state 0 (λ op missing. absurd cc)
