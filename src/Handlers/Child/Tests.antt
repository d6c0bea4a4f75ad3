-- ===== src/Handlers/Child/Tests.antt =====
-- Child contexts that return the text of a value or fail, against a service that takes every checkpoint.
use durable_execution_rust_s.Prelude.{
  ℕ, suc, String, ◌≡◌, ◌↔◌, refl, sym, subst, byte_len, ◌≤◌, arith, inl, inr, true, false, none,
  some, [],
}
use durable_execution_rust_s.Prelude.Dict.{lookup, insert}
use durable_execution_rust_s.Errors.{DurableError, ok, err, error_object_from, is_suspend}
use durable_execution_rust_s.Operation.Kinds.{OperationType}
use durable_execution_rust_s.Operation.Update.{OperationUpdate}
use durable_execution_rust_s.Operation.Update
use durable_execution_rust_s.State.Cache.{update_local_cache_from_update}
use durable_execution_rust_s.Client.{Client, Sender}
use durable_execution_rust_s.Context.{DurableContext}
use durable_execution_rust_s.State.Model.{
  ExecutionState, CheckpointingMode, get_checkpoint_result, mark_parent_done,
  with_checkpointing_mode,
}
use durable_execution_rust_s.State.Checkpoint.{Run, create_checkpoint}
use durable_execution_rust_s.State.Checkpoint.Caching.{Quiet}
use durable_execution_rust_s.State.Tracking.{track_replay}
use durable_execution_rust_s.Serdes.{JsonSerDes, RoundTrip}
use durable_execution_rust_s.Handlers.{OperationIdentifier}
use durable_execution_rust_s.Handlers.Effects.{Handler}
use durable_execution_rust_s.Handlers.Child.{
  ChildConfig, summary_threshold, create_start_update, create_fail_update, mapped, child_handler,
}
use durable_execution_rust_s.Handlers.Child.Replays.{
  replayed_error, is_user_code, child_result_replayed, child_error_replayed,
}

-- The world counts the calls of the service and of the function.
abbrev service : Client ℕ
service = record {
  checkpoint = λ arn token updates calls.
      (ok (record { checkpoint_token = "next"; new_execution_state = none }), suc calls);
  get_operations = λ arn marker calls. (err (DurableError.validation "no history"), calls);
}

service-Quiet : Quiet service
service-Quiet arn token updates w r h = ground arith

abbrev no_sender : Sender ℕ
no_sender = λ u is_sync token calls. (err (DurableError.validation "no sender"), token, calls)

-- Texts, written as they are.
abbrev plain : JsonSerDes String
plain = record { serialize = λ v. inl v; deserialize = λ text. inl text }

plain-RoundTrip : RoundTrip plain
plain-RoundTrip v text h = sym h

abbrev order : OperationIdentifier
order = record { operation_id = "order"; parent_id = none; name = some "an order" }

abbrev config : ChildConfig
config = record { replay_children = false; error_mapper = none; summary_generator = none }

abbrev ships : DurableContext → Handler ℕ String
ships = λ context s calls. (ok "shipped", s, suc calls)

abbrev refusal : DurableError
refusal = DurableError.validation "no stock"

abbrev refuses : DurableContext → Handler ℕ String
refuses = λ context s calls. (err refusal, s, suc calls)

abbrev fresh_state : ExecutionState
fresh_state =
    with_checkpointing_mode "arn" "token" (record { operations = []; next_marker = none })
      CheckpointingMode.eager

abbrev first_run : Run String ℕ
first_run = child_handler plain service no_sender ships order config fresh_state 0

first_run_shipped : ((first_run.0 ≡ ok "shipped") × (first_run.2 ≡ 3))
unfolding child_handler with_checkpointing_mode lookup insert get_checkpoint_result
    create_checkpoint Update.start Update.succeed update_local_cache_from_update
first_run_shipped = (refl, refl)

abbrev late_step : OperationUpdate
late_step = record (Update.start "pick" OperationType.step) { parent_id = some "order" }

shipped_short :
    (text : String) → plain.serialize "shipped" ≡ inl text → byte_len text ≤ summary_threshold
shipped_short text h =
    let same : "shipped" ≡ text = cc in
    subst (λ z. byte_len z ≤ summary_threshold) same (omega arith)

child_result_replayed_example :
    child_handler plain service no_sender refuses order config first_run.1 9
    ≡ (ok "shipped", track_replay first_run.1 "order", 9)
unfolding child_handler with_checkpointing_mode lookup insert get_checkpoint_result
    create_checkpoint Update.start Update.succeed update_local_cache_from_update
child_result_replayed_example =
    child_result_replayed plain service service-Quiet no_sender ships order config plain-RoundTrip
      (λ s w. refl) "shipped" fresh_state first_run.1 0 3 shipped_short (λ op missing. absurd cc)
      (λ op missing. absurd cc) refl refuses config 9 refl

abbrev started : Run (Unit {0}) ℕ
started = create_checkpoint service no_sender (create_start_update order config) true fresh_state 0

abbrev failed : Run (Unit {0}) ℕ
failed =
    create_checkpoint service no_sender (create_fail_update order (error_object_from refusal)) true
      started.1 2

child_error_replayed_example :
    let done = mark_parent_done failed.1 "order" in
    (child_handler plain service no_sender refuses order config fresh_state 0
      ≡ (err refusal, done, 3))
    × ((func' : DurableContext → Handler ℕ String) (config' : ChildConfig) (later : ℕ)
        → child_handler plain service no_sender func' order config' done later
          ≡ (err (replayed_error refusal), track_replay done "order", later))
    × ((replayed_error refusal ≡ refusal) ↔ (is_user_code refusal ≡ true))
unfolding with_checkpointing_mode lookup create_checkpoint create_start_update create_fail_update
    Update.start Update.fail error_object_from mapped is_suspend update_local_cache_from_update
child_error_replayed_example =
    child_error_replayed plain service service-Quiet no_sender refuses order config refusal
      fresh_state started.1 started.1 failed.1 0 1 2 3 (λ s w. refl) (λ op missing. absurd cc)
      (λ op missing. absurd cc) (inr (refl, refl)) refl refl refl
