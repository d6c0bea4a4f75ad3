-- ===== src/Handlers/Effects.antt =====
-- The effects of the handlers of sdk/src/handlers/: they read and write the execution state, call the
-- service and the user's code, and `?` passes a failure on with what was written before it. The
-- state of the world outside, which the service and the user's code change, is `S`.
use durable_execution_rust_s.Prelude.{String, ◌≡◌, refl, true}
use durable_execution_rust_s.Errors.{DurableError, Result, ok, err}
use durable_execution_rust_s.Operation.Update.{OperationUpdate}
use durable_execution_rust_s.Client.{Client, Sender}
use durable_execution_rust_s.CheckpointedResult.{CheckpointedResult}
use durable_execution_rust_s.State.Model.{ExecutionState, get_checkpoint_result}
use durable_execution_rust_s.State.Model
use durable_execution_rust_s.State.Checkpoint.{Run, create_checkpoint}
use durable_execution_rust_s.State.Tracking.{track_replay}

abbrev pub Handler : Type 0 → Type 0 → Type 0
Handler S A = ExecutionState → S → Run A S

module _ {S A : Type 0} where
  abbrev pub pure : A → Handler S A
  pure a s w = (ok a, s, w)

  abbrev pub fail : DurableError → Handler S A
  fail e s w = (err e, s, w)

  -- A `Result` that no effect made.
  abbrev pub lift : Result A → Handler S A
  lift r s w = (r, s, w)

  -- The user's code, which changes the world outside only.
  abbrev pub call : (S → A × S) → Handler S A
  call f s w = let (a, w') = f w in (ok a, s, w')

-- The result of `m`, an error included.
abbrev pub attempt : {S A : Type 0} → Handler S A → Handler S (Result A)
attempt m s w = let (r, s', w') = m s w in (ok r, s', w')

module _ {S : Type 0} where
  abbrev pub stored : String → Handler S CheckpointedResult
  stored id s w = (ok (get_checkpoint_result s id), s, w)

  abbrev pub track : String → Handler S (Unit {0})
  track id s w = (ok tt, track_replay s id, w)

  abbrev pub mark_parent_done : String → Handler S (Unit {0})
  mark_parent_done id s w = (ok tt, Model.mark_parent_done s id, w)

  abbrev pub arn : Handler S String
  arn s w = (ok s.durable_execution_arn, s, w)

  -- `create_checkpoint(update, true).await?`
  abbrev pub checkpoint : Client S → Sender S → OperationUpdate → Handler S (Unit {0})
  checkpoint client send u s w = create_checkpoint client send u true s w

module _ {S A B : Type 0} where
  infixl 5 ◌>>=◌ ◌>>◌
  abbrev pub continue : Run A S → (A → Handler S B) → Run B S
  continue (ok a, s, w) f = f a s w
  continue (err e, s, w) f = (err e, s, w)

  abbrev pub ◌>>=◌ : Handler S A → (A → Handler S B) → Handler S B
  ◌>>=◌ m f s w = continue (m s w) f

  abbrev pub ◌>>◌ : Handler S A → Handler S B → Handler S B
  m >> n = m >>= λ _. n

  -- A successful chain has a successful first part.
  pub >>=-eq-ok :
      (m : Run A S) (f : A → Handler S B) {b : B} {s' : ExecutionState} {w' : S}
      → continue m f ≡ (ok b, s', w')
      → (a : A) × (s : ExecutionState) × (w : S) × (m ≡ (ok a, s, w)) × (f a s w ≡ (ok b, s', w'))
  >>=-eq-ok (ok a, s, w) f h = (a, s, w, refl, h)
  >>=-eq-ok (err e, s, w) f h = absurd cc
