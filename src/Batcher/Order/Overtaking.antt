-- ===== src/Batcher/Order/Overtaking.antt =====
-- `sort_checkpoint_batch` of sdk/src/state/batcher.rs on a child, an unrelated request and the START
-- of the child's context.
use durable_execution_rust_s.Prelude.{
  ℕ, ◌≡◌, ◌≢◌, refl, String, eq_iff, true, false, none, some, List, [], ◌∷◌, arith,
}
use durable_execution_rust_s.Operation.Kinds.{OperationType, OperationAction, type_eq, action_eq}
use durable_execution_rust_s.Batcher.{CheckpointRequest}
use durable_execution_rust_s.Batcher.Order.{
  Ordering, is_start, is_context_start, is_exec_completion, child_or_below, starts_parent, when,
  index_order, same_operation, compare, is_less, shift, place, place_all, enumerate, restore,
  sort_checkpoint_batch,
}

module _ (fuel : ℕ) (c o p : CheckpointRequest)
    (child : c.operation.parent_id ≡ some p.operation.operation_id)
    (outside : o.operation.parent_id ≡ none) (top : p.operation.parent_id ≡ none)
    (is_context : p.operation.operation_type ≡ OperationType.context)
    (starts : p.operation.action ≡ OperationAction.start)
    (c_step : c.operation.operation_type ≡ OperationType.step)
    (o_step : o.operation.operation_type ≡ OperationType.step)
    (c_p : c.operation.operation_id ≢ p.operation.operation_id)
    (o_p : o.operation.operation_id ≢ p.operation.operation_id)
    (c_o : c.operation.operation_id ≢ o.operation.operation_id) where
  abbrev three : List CheckpointRequest
  three = c ∷ o ∷ p ∷ []

  context_p : is_context_start three p.operation.operation_id ≡ true
  unfolding is_context_start is_start type_eq action_eq
  context_p = ground (arith, eq_iff p.operation.operation_id p.operation.operation_id)

  no_context : (id : String) → id ≢ p.operation.operation_id → is_context_start three id ≡ false
  unfolding is_context_start is_start type_eq action_eq
  no_context id ne = ground (arith, eq_iff p.operation.operation_id id)

  not_exec :
      (is_exec_completion c.operation ≡ false)
      × (is_exec_completion o.operation ≡ false)
      × (is_exec_completion p.operation ≡ false)
  unfolding is_exec_completion type_eq
  not_exec = (ground arith, ground arith, ground arith)

  unrelated :
      (starts_parent fuel three c.operation o.operation ≡ some false)
      × (starts_parent fuel three o.operation c.operation ≡ some false)
      × (starts_parent fuel three p.operation o.operation ≡ some false)
      × (starts_parent fuel three o.operation p.operation ≡ some false)
      × (starts_parent fuel three c.operation p.operation ≡ some true)
  unfolding starts_parent is_start action_eq child_or_below
  unrelated = (
    ground (arith, no_context o.operation.operation_id o_p),
    ground (arith, no_context c.operation.operation_id c_p),
    ground (arith, no_context o.operation.operation_id o_p),
    rw outside (ground arith),
    rw child (ground (arith, context_p, eq_iff p.operation.operation_id p.operation.operation_id)),
  )

  compared :
      (compare fuel three (0, c) (1, o) ≡ some Ordering.less)
      × (compare fuel three (1, o) (0, c) ≡ some Ordering.greater)
      × (compare fuel three (1, o) (2, p) ≡ some Ordering.less)
      × (compare fuel three (2, p) (1, o) ≡ some Ordering.greater)
      × (compare fuel three (0, c) (2, p) ≡ some Ordering.greater)
  unfolding compare when same_operation index_order
  compared = (
    ground (arith, not_exec, unrelated, eq_iff c.operation.operation_id o.operation.operation_id),
    ground (arith, not_exec, unrelated, eq_iff o.operation.operation_id c.operation.operation_id),
    ground (arith, not_exec, unrelated, eq_iff o.operation.operation_id p.operation.operation_id),
    ground (arith, not_exec, unrelated, eq_iff p.operation.operation_id o.operation.operation_id),
    ground (arith, not_exec, unrelated),
  )

  -- A child step c, a step o without a parent and the START p of the child's context, itself
  -- without a parent, with three different ids and enqueued in this order, compare as c < o, o < p
  -- and c > p, so the comparison is not transitive, and sorting leaves the START behind its child.
  pub child_stays_first :
      (compare fuel three (0, c) (1, o) ≡ some Ordering.less)
      × (compare fuel three (1, o) (2, p) ≡ some Ordering.less)
      × (compare fuel three (0, c) (2, p) ≡ some Ordering.greater)
      × (sort_checkpoint_batch fuel three ≡ some three)
  unfolding sort_checkpoint_batch place_all place shift is_less enumerate restore
  child_stays_first = let (co, oc, op, po, cp) = compared in (co, op, cp, rw (oc, po) refl)
