-- ===== src/State/Tracking/Tests.antt =====
-- Replay of a history with an EXECUTION operation and one step.
use durable_execution_rust_s.Prelude.{◌≡◌, ◌↔◌, refl, none, List, [], ◌∷◌}
use durable_execution_rust_s.Prelude.Dict.{lookup, insert, member, add}
use durable_execution_rust_s.Operation.Kinds.{OperationType}
use durable_execution_rust_s.Operation.Record.{Operation, new_operation}
use durable_execution_rust_s.State.Model.{
  ExecutionState, ReplayStatus, CheckpointingMode, with_checkpointing_mode,
}
use durable_execution_rust_s.State.Invariant.{IsValid, new_state-IsValid}
use durable_execution_rust_s.State.Tracking.{
  track_replay, track_all, AllReplayed, OnlyKnown, track_replay_ends, untracked_keeps_replay,
}

abbrev history : List Operation
history = new_operation "exec" OperationType.execution ∷ new_operation "s" OperationType.step ∷ []

abbrev resumed : ExecutionState
resumed =
    with_checkpointing_mode "arn" "token" (record { operations = history; next_marker = none })
      CheckpointingMode.batched

resumed-IsValid : IsValid resumed
resumed-IsValid =
    (new_state-IsValid "arn" "token" (record { operations = history; next_marker = none })
      CheckpointingMode.batched).0

resumed-OnlyKnown : OnlyKnown resumed
unfolding with_checkpointing_mode member
resumed-OnlyKnown k h = cc

replay_ends_when_both_tracked :
    (track_all resumed ("exec" ∷ "s" ∷ [])).replay_status ≡ ReplayStatus.new
unfolding track_all track_replay with_checkpointing_mode new_operation insert add
replay_ends_when_both_tracked = refl

track_replay_ends_example :
    ((track_replay resumed "s").replay_status ≡ ReplayStatus.new)
    ↔ (AllReplayed (track_replay resumed "s") × (resumed.next_marker ≡ none))
unfolding with_checkpointing_mode new_operation lookup insert
track_replay_ends_example =
    track_replay_ends resumed "s" resumed-IsValid resumed-OnlyKnown refl refl

untracked_keeps_replay_example :
    (track_all resumed ("s" ∷ "s" ∷ [])).replay_status ≡ ReplayStatus.replay
unfolding with_checkpointing_mode new_operation lookup insert member
untracked_keeps_replay_example =
    untracked_keeps_replay resumed "exec" ("s" ∷ "s" ∷ []) resumed-IsValid resumed-OnlyKnown refl
      refl refl (refl, refl, (refl, refl, tt))
