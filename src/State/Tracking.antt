-- ===== src/State/Tracking.antt =====
-- `track_replay` of sdk/src/state/execution_state.rs.
mod Tests
use durable_execution_rust_s.Prelude.{
  ℕ, suc, ◌≤◌, String, ◌≡◌, refl, ◌↔◌, ◌⊎◌, ap, ◌∙◌, sym, Bool, true, false, not, Option, none,
  some, is_some, List, [], ◌∷◌, leb, length, arith, eq_iff, str_eq, if◌then◌else◌, ◌&&◌, ◌||◌, inl,
  inr, Bool-cases,
}
use durable_execution_rust_s.Prelude.Dict.{lookup, member, add, member-add}
use durable_execution_rust_s.Prelude.Sets.{
  Distinct, Within, add-Distinct, keys, length-keys, member-keys, covers, length-le-Within,
}
use durable_execution_rust_s.State.Model.{ExecutionState, ReplayStatus, Operations}
use durable_execution_rust_s.State.Invariant.{IsValid}

unfoldable pub track_replay : ExecutionState → String → ExecutionState
track_replay s id =
    let replayed = add id s.replayed_operations in
    record s {
      replayed_operations = replayed;
      replay_status =
          if leb (length s.operations) (length replayed)
          then (if not (is_some s.next_marker) then ReplayStatus.new else s.replay_status)
          else s.replay_status;
    }

-- Tracking keeps the state well formed.
pub track_replay-IsValid :
    (s : ExecutionState) (id : String) → IsValid s → IsValid (track_replay s id)
unfolding track_replay
track_replay-IsValid s id v = record {
  filed = v.filed;
  one_each = v.one_each;
  replayed_once = add-Distinct id s.replayed_operations v.replayed_once;
}

-- Every operation of the cache has been replayed.
abbrev pub AllReplayed : ExecutionState → Type 0
AllReplayed s =
    (k : String) → is_some (lookup k s.operations) ≡ true → member k s.replayed_operations ≡ true

-- Only operations of the cache have been replayed.
abbrev pub OnlyKnown : ExecutionState → Type 0
OnlyKnown s = Within s.replayed_operations (keys s.operations)

module _ (s : ExecutionState) (v : IsValid s) (known : OnlyKnown s) where
  counted_all : length s.operations ≤ length s.replayed_operations → AllReplayed s
  counted_all le k here =
      covers s.replayed_operations (keys s.operations) k v.replayed_once known
        (omega (arith, length-keys s.operations)) (member-keys k s.operations ∙ here)

  all_counted : AllReplayed s → length s.operations ≤ length s.replayed_operations
  all_counted every = omega (
    arith,
    length-keys s.operations,
    length-le-Within (keys s.operations) s.replayed_operations v.one_each
        (λ k h. every k (sym (member-keys k s.operations) ∙ h)),
  )

module _ (s : ExecutionState) (id : String) where
  status_iff_counts :
      s.replay_status ≡ ReplayStatus.replay
      → ((track_replay s id).replay_status ≡ ReplayStatus.new) ↔ (
          (length s.operations ≤ length (track_replay s id).replayed_operations)
          × (s.next_marker ≡ none))
  unfolding track_replay
  status_iff_counts r = (λ h. (ground arith, ground arith), λ h. ground arith)

  track_replay-OnlyKnown :
      is_some (lookup id s.operations) ≡ true → OnlyKnown s → OnlyKnown (track_replay s id)
  unfolding track_replay
  track_replay-OnlyKnown here known k h = ground (
    arith,
    eq_iff id k,
    member-add id k s.replayed_operations,
    known k,
    member-keys k s.operations,
    member-keys id s.operations,
  )

  -- In a well-formed state that is in replay and has replayed only cached operations, tracking a
  -- cached operation ends the replay exactly when every cached operation is then replayed and no
  -- page of the history is left to load.
  pub track_replay_ends :
      IsValid s
      → OnlyKnown s
      → is_some (lookup id s.operations) ≡ true
      → s.replay_status ≡ ReplayStatus.replay
      → ((track_replay s id).replay_status ≡ ReplayStatus.new)
        ↔ (AllReplayed (track_replay s id) × (s.next_marker ≡ none))
  unfolding track_replay
  track_replay_ends v known here r = (
    λ h. (counted_all t tv tk ((status_iff_counts r).0 h).0, ((status_iff_counts r).0 h).1),
    λ h. (status_iff_counts r).1 (all_counted t tv tk h.0, h.1),
  )
    where
      t : ExecutionState
      t = track_replay s id

      tv : IsValid t
      tv = track_replay-IsValid s id v

      tk : OnlyKnown t
      tk = track_replay-OnlyKnown here known

-- The handlers track one operation after the other.
unfoldable pub track_all : ExecutionState → List String → ExecutionState
track_all s [] = s
track_all s (id ∷ ids) = track_all (track_replay s id) ids

-- Cached operations, and none of them `x`.
abbrev pub KnownBut : String → Operations → List String → Type 0
KnownBut x m [] = Unit {0}
KnownBut x m (id ∷ ids) = (str_eq id x ≡ false) × (is_some (lookup id m) ≡ true) × KnownBut x m ids

status_cases : (r : ReplayStatus) → (r ≡ ReplayStatus.replay) ⊎ (r ≡ ReplayStatus.new)
status_cases r = ground arith

status_stays :
    (s : ExecutionState) (id x : String)
    → IsValid s
    → OnlyKnown s
    → s.replay_status ≡ ReplayStatus.replay
    → is_some (lookup x s.operations) ≡ true
    → member x s.replayed_operations ≡ false
    → str_eq id x ≡ false
    → is_some (lookup id s.operations) ≡ true
    → (track_replay s id).replay_status ≡ ReplayStatus.replay
unfolding track_replay
status_stays s id x v known r cached out ne here =
    elim (status_cases (track_replay s id).replay_status) [
      | inl stays ↦ stays
      | inr ends ↦
          let every : member x (add id s.replayed_operations) ≡ true =
            ((track_replay_ends s id v known here r).0 ends).0 x cached in
          absurd (ground (arith, every, member-add id x s.replayed_operations))
    ]

-- In a well-formed state that is in replay and has replayed only cached operations, as long as one
-- cached operation is never tracked the state stays in replay, whichever other cached operations
-- are tracked, in whatever order and how often.
pub untracked_keeps_replay :
    (s : ExecutionState) (x : String) (ids : List String)
    → IsValid s
    → OnlyKnown s
    → s.replay_status ≡ ReplayStatus.replay
    → is_some (lookup x s.operations) ≡ true
    → member x s.replayed_operations ≡ false
    → KnownBut x s.operations ids
    → (track_all s ids).replay_status ≡ ReplayStatus.replay
unfolding track_all
untracked_keeps_replay s x [] v known r cached out ks = r
untracked_keeps_replay s x (id ∷ ids) v known r cached out ks =
    untracked_keeps_replay (track_replay s id) x ids (track_replay-IsValid s id v)
      (track_replay-OnlyKnown s id ks.1 known) (status_stays s id x v known r cached out ks.0 ks.1)
      (unfold track_replay in cached)
      (unfold track_replay in ground (arith, member-add id x s.replayed_operations, ks.0, out))
      (unfold track_replay in ks.2)
