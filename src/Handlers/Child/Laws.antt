-- ===== src/Handlers/Child/Laws.antt =====
-- `child_handler` of sdk/src/handlers/child.rs: what a child context leaves when it is over, and what a
-- later run of it answers.
use durable_execution_rust_s.Prelude.{
  String, ◌≡◌, ◌≢◌, refl, sym, subst, ◌∙◌, ◌⊎◌, inl, inr, true, false, Bool-cases, some, arith,
}
use durable_execution_rust_s.Errors.{DurableError, Result, ok, err, error_object_from, is_suspend}
use durable_execution_rust_s.Operation.Update.{OperationUpdate}
use durable_execution_rust_s.Client.{Client, Sender}
use durable_execution_rust_s.State.Model.{ExecutionState, mark_parent_done}
use durable_execution_rust_s.State.Checkpoint.{Run, create_checkpoint}
use durable_execution_rust_s.Context.{DurableContext, create_child_context}
use durable_execution_rust_s.Serdes.{JsonSerDes}
use durable_execution_rust_s.Handlers.{OperationIdentifier}
use durable_execution_rust_s.Handlers.Effects.{Handler, continue}
use durable_execution_rust_s.Handlers.Child.{
  ChildConfig, create_succeed_update, create_fail_update, summarized, mapped, checkpoint_result,
  execute_child,
}

-- A value that was returned was stored, and the child context is marked as done.
abbrev pub Completes :
    {S : Type 0}
    → Client S
    → Sender S
    → OperationUpdate
    → String
    → ExecutionState
    → S
    → ExecutionState
    → S
    → Type 0
Completes client send u id t w s' w' =
    (t' : ExecutionState) × (create_checkpoint client send u true t w ≡ (ok tt, t', w'))
    × (s' ≡ mark_parent_done t' id)

then_done :
    {S T : Type 0} (r : Run (Unit {0}) S) (id : String) (v v' : T) (s' : ExecutionState) (w' : S)
    → continue r (λ done s w. (ok v, mark_parent_done s id, w)) ≡ (ok v', s', w')
    → (t' : ExecutionState) × (r ≡ (ok tt, t', w')) × (s' ≡ mark_parent_done t' id) × (v ≡ v')
then_done (ok tt, s, w) id v v' s' w' h = (s, ground arith, ground arith, ground arith)
then_done (err e, s, w) id v v' s' w' h = absurd cc

module _ {T S : Type 0} (serdes : JsonSerDes T) (client : Client S) (send : Sender S)
    (id : OperationIdentifier) (config : ChildConfig) where
  stored_value :
      (written : String ⊎ String) (v v' : T) (t s' : ExecutionState) (w w' : S)
      → serdes.serialize v ≡ written
      → checkpoint_result serdes client send id config (ok v) t w ≡ (ok v', s', w')
      → (text : String) × (serdes.serialize v ≡ inl text)
        × (v ≡ v')
        × Completes client send
            (create_succeed_update id (some (summarized config.summary_generator text)))
            id.operation_id
            t
            w
            s'
            w'
  unfolding checkpoint_result
  stored_value (inl text) v v' t s' w w' e h =
      let run =
        create_checkpoint client send
          (create_succeed_update id (some (summarized config.summary_generator text))) true t w in
      let same : checkpoint_result serdes client send id config (ok v) t w
          ≡ continue run (λ done s w. (ok v, mark_parent_done s id.operation_id, w)) =
        rw e refl in
      let (t', accepted, marked, value) = then_done run id.operation_id v v' s' w' (sym same ∙ h) in
      (text, e, value, (t', accepted, marked))
  stored_value (inr m) v v' t s' w w' e h = absurd (ground arith)

  never_value :
      (r : Run (Unit {0}) S) (e : DurableError) (v : T) (s' : ExecutionState) (w' : S)
      → continue r (λ done s w. (err e, mark_parent_done s id.operation_id, w)) ≢ (ok v, s', w')
  never_value (ok done, s, w) e v s' w' h = cc
  never_value (err m, s, w) e v s' w' h = cc

  pub stored_error :
      (e : DurableError) (t : ExecutionState) (w : S)
      → is_suspend e ≡ false
      → checkpoint_result serdes client send id config (err e) t w
        ≡ continue
            (create_checkpoint client send
              (create_fail_update id (error_object_from (mapped config.error_mapper e)))
              true
              t
              w)
            (λ done s w.
              (err (mapped config.error_mapper e), mark_parent_done s id.operation_id, w))
  unfolding checkpoint_result
  stored_error e t w fails = rw fails refl

  suspended :
      (e : DurableError) (t : ExecutionState) (w : S)
      → is_suspend e ≡ true
      → checkpoint_result serdes client send id config (err e) t w ≡ (err e, t, w)
  unfolding checkpoint_result
  suspended e t w suspends = rw suspends refl

  error_stays :
      (e : DurableError) (v : T) (t s' : ExecutionState) (w w' : S)
      → checkpoint_result serdes client send id config (err e) t w ≢ (ok v, s', w')
  error_stays e v t s' w w' h = elim (Bool-cases (is_suspend e)) [
    | inl suspends ↦ let wrong = sym (suspended e t w suspends) ∙ h in cc
    | inr fails ↦
        never_value _ (mapped config.error_mapper e) v s' w' (sym (stored_error e t w fails) ∙ h)
  ]

  completed :
      (r : Result T) (v : T) (t s' : ExecutionState) (w w' : S)
      → checkpoint_result serdes client send id config r t w ≡ (ok v, s', w')
      → (text : String) × (serdes.serialize v ≡ inl text)
        × Completes client send
            (create_succeed_update id (some (summarized config.summary_generator text)))
            id.operation_id
            t
            w
            s'
            w'
  completed (ok v') v t s' w w' h =
      let (text, e, value, done) = stored_value _ v' v t s' w w' refl h in
      (text, subst (λ x. serdes.serialize x ≡ inl text) value e, done)
  completed (err e) v t s' w w' h = absurd (error_stays e v t s' w w' h)

  module _ (func : DurableContext → Handler S T) where
    -- The state that the function leaves.
    abbrev pub after_func : ExecutionState → S → ExecutionState
    after_func t w = (func (create_child_context id.operation_id) t w).1

    pub finished :
        (v : T) (t s' : ExecutionState) (w w' : S)
        → execute_child serdes client send func id config t w ≡ (ok v, s', w')
        → (text : String) × (serdes.serialize v ≡ inl text)
          × Completes client send
              (create_succeed_update id (some (summarized config.summary_generator text)))
              id.operation_id
              (after_func t w)
              (func (create_child_context id.operation_id) t w).2
              s'
              w'
    unfolding execute_child
    finished v t s' w w' h = completed _ v (after_func t w) s' _ w' h
