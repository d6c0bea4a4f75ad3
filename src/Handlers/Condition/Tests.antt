-- ===== src/Handlers/Condition/Tests.antt =====
-- A condition that is not met at the first attempt, against a service that takes every checkpoint. The
-- only state that can be written is that of the second attempt.
use durable_execution_rust_s.Prelude.{
  ℕ, suc, ◌==◌, String, ◌≡◌, refl, arith, ◌⊎◌, inl, inr, true, if◌then◌else◌, none, some, [],
}
use durable_execution_rust_s.Prelude.Dict.{lookup}
use durable_execution_rust_s.Errors.{DurableError, ok, err, execution_failure, user_code_from}
use durable_execution_rust_s.State.Tracking.{track_replay}
use durable_execution_rust_s.Operation.Update
use durable_execution_rust_s.Operation.Update.{with_sub_type}
use durable_execution_rust_s.State.Cache.{update_local_cache_from_update}
use durable_execution_rust_s.Client.{Client, Sender}
use durable_execution_rust_s.State.Model.{
  ExecutionState, CheckpointingMode, get_checkpoint_result, with_checkpointing_mode,
}
use durable_execution_rust_s.State.Checkpoint.{Run, create_checkpoint}
use durable_execution_rust_s.State.Checkpoint.Caching.{Quiet}
use durable_execution_rust_s.Serdes.{JsonSerDes, RoundTrip}
use durable_execution_rust_s.Handlers.{OperationIdentifier}
use durable_execution_rust_s.Handlers.Condition.{
  WaitDecision, WaitForConditionState, WaitForConditionConfig, WaitForConditionContext,
  create_start_update, create_retry_update, create_fail_update, attempts_error, checkpoint_start,
  get_current_state, poll, wait_for_condition_handler,
}
use durable_execution_rust_s.Handlers.Condition.Laws.{next_attempt, attempts_exceeded}

-- The world counts the calls of the service and of the check.
abbrev service : Client ℕ
service = record {
  checkpoint = λ arn token updates calls.
      (ok (record { checkpoint_token = "next"; new_execution_state = none }), suc calls);
  get_operations = λ arn marker calls. (err (DurableError.validation "no history"), calls);
}

service-Quiet : Quiet service
service-Quiet arn token updates w r h = ground arith

abbrev no_sender : Sender ℕ
no_sender = λ u is_sync token calls. (err (DurableError.validation "no sender"), token, calls)

abbrev plain : JsonSerDes String
plain = record { serialize = λ v. inl v; deserialize = λ text. inl text }

abbrev second : WaitForConditionState ℕ
second = record { user_state = 7; attempt = 2 }

abbrev second_only : JsonSerDes (WaitForConditionState ℕ)
second_only = record {
  serialize = λ v.
      if v.user_state == 7
      then (if v.attempt == 2 then inl "second" else inr "another attempt")
      else inr "another state";
  deserialize = λ text. inl second;
}

second_only-RoundTrip : RoundTrip second_only
second_only-RoundTrip v text h = ground arith

abbrev arrival : OperationIdentifier
arrival = record { operation_id = "arrival"; parent_id = none; name = none }

abbrev config : WaitForConditionConfig ℕ
config = record { initial_state = 7; wait_strategy = λ current attempt. WaitDecision.continue 30 }

abbrev check : ℕ → WaitForConditionContext → ℕ → (String ⊎ String) × ℕ
check = λ current context calls. (inr "not yet", suc calls)

abbrev fresh_state : ExecutionState
fresh_state =
    with_checkpointing_mode "arn" "token" (record { operations = []; next_marker = none })
      CheckpointingMode.eager

abbrev started : Run (Unit {0}) ℕ
started = create_checkpoint service no_sender (create_start_update arrival) true fresh_state 0

abbrev retried : Run (Unit {0}) ℕ
retried =
    create_checkpoint service no_sender (create_retry_update arrival (some "second") (some 30)) true
      started.1 2

next_attempt_example :
    (wait_for_condition_handler plain second_only service no_sender arrival config check fresh_state
        0
      ≡ (err (DurableError.suspend none), retried.1, 3))
    × ((later : ℕ)
        → wait_for_condition_handler plain second_only service no_sender arrival config check
            retried.1 later
          ≡ poll plain second_only service no_sender arrival config check
              (get_checkpoint_result retried.1 "arrival")
              second
              retried.1
              later)
unfolding with_checkpointing_mode lookup create_checkpoint create_start_update create_retry_update
    Update.start Update.retry with_sub_type update_local_cache_from_update get_checkpoint_result
    get_current_state checkpoint_start
next_attempt_example =
    next_attempt plain second_only service no_sender arrival config check
      (record { user_state = 7; attempt = 1 }) "not yet" "second" 30 fresh_state started.1 retried.1
      0 1 2 3 service-Quiet second_only-RoundTrip (λ op missing. absurd cc) refl refl refl refl refl
      refl

abbrev gives_up : WaitForConditionConfig ℕ
gives_up = record { initial_state = 7; wait_strategy = λ current attempt. WaitDecision.done }

abbrev abandoned : Run (Unit {0}) ℕ
abandoned =
    create_checkpoint service no_sender (create_fail_update arrival (attempts_error "not yet")) true
      started.1 2

attempts_exceeded_example :
    (wait_for_condition_handler plain second_only service no_sender arrival gives_up check
        fresh_state 0
      ≡ (err (execution_failure "Max attempts exceeded for wait_for_condition"), abandoned.1, 3))
    × ((later : ℕ)
        → wait_for_condition_handler plain second_only service no_sender arrival gives_up check
            abandoned.1 later
          ≡ (
            err (user_code_from (attempts_error "not yet")),
            track_replay abandoned.1 "arrival",
            later,
          ))
unfolding with_checkpointing_mode lookup create_checkpoint create_start_update create_fail_update
    Update.start Update.fail with_sub_type update_local_cache_from_update get_checkpoint_result
    get_current_state checkpoint_start
attempts_exceeded_example =
    attempts_exceeded plain second_only service no_sender arrival gives_up check
      (record { user_state = 7; attempt = 1 }) "not yet" fresh_state started.1 abandoned.1 0 1 2 3
      service-Quiet (λ op missing. absurd cc) refl refl refl refl refl
