-- ===== src/Handlers/Child/Executed.antt =====
-- When `child_handler` of sdk/src/handlers/child.rs executes the function, and what its checkpoints leave.
use durable_execution_rust_s.Prelude.{
  String, ◌≡◌, refl, sym, subst, ◌∙◌, ◌⊎◌, inl, inr, true, false, Bool-cases, Option, none, some,
  arith,
}
use durable_execution_rust_s.Prelude.Dict.{lookup}
use durable_execution_rust_s.Errors.{ok, err}
use durable_execution_rust_s.Operation.Kinds.{
  OperationType, type_eq, type_eq_iff, status_eq, is_terminal,
}
use durable_execution_rust_s.Operation.Record.{Operation}
use durable_execution_rust_s.Client.{Client, Sender}
use durable_execution_rust_s.State.Model.{ExecutionState, get_checkpoint_result}
use durable_execution_rust_s.State.Checkpoint.{Run, create_checkpoint}
use durable_execution_rust_s.Context.{DurableContext}
use durable_execution_rust_s.Serdes.{JsonSerDes}
use durable_execution_rust_s.Handlers.{OperationIdentifier}
use durable_execution_rust_s.Handlers.Effects.{Handler, continue}
use durable_execution_rust_s.Handlers.Child.{
  ChildConfig, create_start_update, check_type, execute_child, without_result, by_status, resume,
  child_handler,
}

-- The child context is not stored as one that is over.
abbrev pub NotOver : String → ExecutionState → Type 0
NotOver id s = (op : Operation) → lookup id s.operations ≡ some op → is_terminal op.status ≡ false

module _ {T S : Type 0} (serdes : JsonSerDes T) (client : Client S) (send : Sender S)
    (func : DurableContext → Handler S T) (id : OperationIdentifier) (config : ChildConfig) where
  -- The state and the world from which the function is executed: those of the call, of a child
  -- context that is stored, or those after the START checkpoint.
  abbrev pub Begins : ExecutionState → S → ExecutionState → S → Type 0
  Begins s w t u =
      ((op : Operation) × (lookup id.operation_id s.operations ≡ some op)
        × (op.operation_type ≡ OperationType.context)
        × (t ≡ s)
        × (u ≡ w))
      ⊎ ((lookup id.operation_id s.operations ≡ none)
          × (create_checkpoint client send (create_start_update id config) true s w
              ≡ (ok tt, t, u)))

  going_on :
      (op : Operation) (s : ExecutionState) (w : S)
      → op.operation_type ≡ OperationType.context
      → is_terminal op.status ≡ false
      → by_status serdes client send func id config (record { operation = some op }) s w
        ≡ execute_child serdes client send func id config s w
  unfolding by_status without_result status_eq is_terminal
  going_on op s w kind going = ground arith

  is_context :
      (op : Operation) (v : T) (s s' : ExecutionState) (w w' : S)
      → resume serdes client send func id config (record { operation = some op }) s w
        ≡ (ok v, s', w')
      → (op.operation_type ≡ OperationType.context)
        × (by_status serdes client send func id config (record { operation = some op }) s w
            ≡ (ok v, s', w'))
  unfolding resume check_type
  is_context op v s s' w w' h =
      elim (Bool-cases (type_eq op.operation_type OperationType.context)) [
        | inl same ↦ ((type_eq_iff op.operation_type OperationType.context).0 same, ground arith)
        | inr other ↦ absurd (ground arith)
      ]

  as_context :
      (op : Operation) (s : ExecutionState) (w : S)
      → op.operation_type ≡ OperationType.context
      → resume serdes client send func id config (record { operation = some op }) s w
        ≡ by_status serdes client send func id config (record { operation = some op }) s w
  unfolding resume check_type type_eq
  as_context op s w kind = ground arith

  begun :
      (r : Run (Unit {0}) S) (v : T) (s s' : ExecutionState) (w w' : S)
      → lookup id.operation_id s.operations ≡ none
      → create_checkpoint client send (create_start_update id config) true s w ≡ r
      → continue r (λ done. execute_child serdes client send func id config) ≡ (ok v, s', w')
      → (t : ExecutionState) × (u : S) × (execute_child serdes client send func id config t u
          ≡ (ok v, s', w'))
        × Begins s w t u
  begun (ok done, t, u) v s s' w w' missing e h = (t, u, h, inr (missing, e))
  begun (err m, t, u) v s s' w w' missing e h = absurd cc

  resumed :
      (o : Option Operation) (v : T) (s s' : ExecutionState) (w w' : S)
      → lookup id.operation_id s.operations ≡ o
      → NotOver id.operation_id s
      → resume serdes client send func id config (record { operation = o }) s w ≡ (ok v, s', w')
      → (t : ExecutionState) × (u : S) × (execute_child serdes client send func id config t u
          ≡ (ok v, s', w'))
        × Begins s w t u
  resumed none v s s' w w' e going h = begun _ v s s' w w' e refl (unfold resume in h)
  resumed (some op) v s s' w w' e going h =
      let (kind, run) = is_context op v s s' w w' h in
      (s, w, sym (going_on op s w kind (going op e)) ∙ run, inl (op, e, kind, refl, refl))

  -- A value of a child context that is not over comes from the function.
  pub executed :
      (v : T) (s s' : ExecutionState) (w w' : S)
      → NotOver id.operation_id s
      → child_handler serdes client send func id config s w ≡ (ok v, s', w')
      → (t : ExecutionState) × (u : S) × (execute_child serdes client send func id config t u
          ≡ (ok v, s', w'))
        × Begins s w t u
  unfolding child_handler get_checkpoint_result
  executed v s s' w w' going h =
      resumed (lookup id.operation_id s.operations) v s s' w w' refl going h

  resumes :
      (s t : ExecutionState) (w x : S)
      → NotOver id.operation_id s
      → Begins s w t x
      → resume serdes client send func id config
          (record { operation = lookup id.operation_id s.operations })
          s
          w
        ≡ execute_child serdes client send func id config t x
  unfolding resume check_type
  resumes s t w x going (inl (op, e, kind, same, world)) =
      rw (same, world)
        (subst
          (λ o.
            resume serdes client send func id config (record { operation = o }) s w
            ≡ execute_child serdes client send func id config s w)
          (sym e) (as_context op s w kind ∙ going_on op s w kind (going op e)))
  resumes s t w x going (inr (missing, accepted)) = rw (missing, accepted) refl

  -- A child context that is not over executes the function.
  pub runs :
      (s t : ExecutionState) (w x : S)
      → NotOver id.operation_id s
      → Begins s w t x
      → child_handler serdes client send func id config s w
        ≡ execute_child serdes client send func id config t x
  unfolding child_handler get_checkpoint_result
  runs s t w x going begins = resumes s t w x going begins
