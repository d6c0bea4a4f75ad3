-- ===== src/Batcher/Order.antt =====
-- `sort_checkpoint_batch` of sdk/src/state/batcher.rs. `sort_by` is stable insertion, from the right
-- into the sorted front, as the standard library sorts short slices. The walk over the ancestors
-- takes fuel; `none` says that it ran out. The source's walk has no limit.
pub mod Laws
pub mod Overtaking
use durable_execution_rust_s.Prelude.{
  ℕ, zero, suc, String, str_eq, ltb, leb, if◌then◌else◌, Bool, true, false, not, ◌&&◌, ◌||◌, Option,
  none, some, and_then, List, [], ◌∷◌, any, length,
}
use mathlib.Core.Option
use durable_execution_rust_s.Prelude.Dict.{Dict, lookup, insert}
use durable_execution_rust_s.Operation.Kinds.{OperationType, OperationAction, type_eq, action_eq}
use durable_execution_rust_s.Operation.Update.{OperationUpdate}
use durable_execution_rust_s.Batcher.{CheckpointRequest}

pub data Ordering : Type 0 where
  less equal greater : Ordering

-- A request with its place in the batch.
abbrev pub Indexed : Type 0
Indexed = ℕ × CheckpointRequest

unfoldable pub is_start : OperationUpdate → Bool
is_start u = action_eq u.action OperationAction.start

-- `context_starts.contains(id)`.
unfoldable pub is_context_start : List CheckpointRequest → String → Bool
unfolding is_start
is_context_start batch id =
    any
      (λ r.
        type_eq r.operation.operation_type OperationType.context
        && is_start r.operation
        && str_eq r.operation.operation_id id)
      batch

-- Later entries for the same id replace earlier ones.
fill_parents : List CheckpointRequest → Dict (Option String) → Dict (Option String)
fill_parents [] m = m
fill_parents (r ∷ rs) m = fill_parents rs (insert r.operation.operation_id r.operation.parent_id m)

unfoldable pub parent_of : List CheckpointRequest → String → Option String
unfolding fill_parents
parent_of batch id = and_then (lookup id (fill_parents batch [])) λ parent. parent

unfoldable pub walk : List CheckpointRequest → String → ℕ → Option String → Option Bool
walk batch ancestor zero current = none
walk batch ancestor (suc fuel) none = some false
walk batch ancestor (suc fuel) (some id) =
    let rest = walk batch ancestor fuel (parent_of batch id) in
    (if str_eq id ancestor then some true else rest)

unfoldable pub is_ancestor : ℕ → List CheckpointRequest → String → String → Option Bool
unfolding walk
is_ancestor fuel batch id ancestor = walk batch ancestor fuel (parent_of batch id)

unfoldable pub is_exec_completion : OperationUpdate → Bool
is_exec_completion u =
    type_eq u.operation_type OperationType.execution
    && (action_eq u.action OperationAction.succeed || action_eq u.action OperationAction.fail)

child_or_below :
    ℕ → List CheckpointRequest → Option String → OperationUpdate → OperationUpdate → Option Bool
unfolding is_ancestor
child_or_below fuel batch none a b = some false
child_or_below fuel batch (some parent) a b =
    if str_eq parent b.operation_id
    then some true
    else is_ancestor fuel batch a.operation_id b.operation_id

-- `b` starts a context of the batch, and `a` is below it.
unfoldable pub starts_parent :
    ℕ → List CheckpointRequest → OperationUpdate → OperationUpdate → Option Bool
unfolding is_start is_context_start child_or_below
starts_parent fuel batch a b =
    if is_start b && is_context_start batch b.operation_id
    then child_or_below fuel batch a.parent_id a b
    else some false

when : Option Bool → Ordering → Option Ordering → Option Ordering
when none order rest = none
when (some true) order rest = some order
when (some false) order rest = rest

index_order : ℕ → ℕ → Ordering
index_order i j =
    if ltb i j then Ordering.less else if ltb j i then Ordering.greater else Ordering.equal

-- The last two rules: START before completion of the same operation, then the original order.
same_operation : Indexed → Indexed → Ordering
unfolding is_start index_order
same_operation (i, a) (j, b) =
    if str_eq a.operation.operation_id b.operation.operation_id
      && is_start a.operation
      && not (is_start b.operation)
    then Ordering.less
    else if str_eq a.operation.operation_id b.operation.operation_id
        && not (is_start a.operation)
        && is_start b.operation
    then Ordering.greater
    else index_order i j

unfoldable pub compare : ℕ → List CheckpointRequest → Indexed → Indexed → Option Ordering
unfolding is_exec_completion starts_parent when same_operation
compare fuel batch (i, a) (j, b) =
    let rest = when (starts_parent fuel batch a.operation b.operation) Ordering.greater (
      when (starts_parent fuel batch b.operation a.operation) Ordering.less
        (some (same_operation (i, a) (j, b)))) in
    (if is_exec_completion a.operation && not (is_exec_completion b.operation)
      then some Ordering.greater
      else if not (is_exec_completion a.operation) && is_exec_completion b.operation
      then some Ordering.less
      else rest)

is_less : Ordering → Bool
is_less Ordering.less = true
is_less _ = false

-- The next element `y` of the sorted front stays to the right of `x`, or `x` stands after it.
shift :
    Indexed
    → Indexed
    → List Indexed
    → Option Ordering
    → Option (List Indexed)
    → Option (List Indexed)
unfolding is_less
shift x y ys none rest = none
shift x y ys (some order) rest =
    if is_less order then Option.map (λ zs. y ∷ zs) rest else some (x ∷ y ∷ ys)

-- The sorted front is kept from right to left.
place : ℕ → List CheckpointRequest → Indexed → List Indexed → Option (List Indexed)
unfolding shift compare
place fuel batch x [] = some (x ∷ [])
place fuel batch x (y ∷ ys) = shift x y ys (compare fuel batch x y) (place fuel batch x ys)

place_all : ℕ → List CheckpointRequest → List Indexed → List Indexed → Option (List Indexed)
unfolding place
place_all fuel batch [] front = some front
place_all fuel batch (x ∷ xs) front = and_then (place fuel batch x front) (place_all fuel batch xs)

enumerate : ℕ → List CheckpointRequest → List Indexed
enumerate i [] = []
enumerate i (r ∷ rs) = (i, r) ∷ enumerate (suc i) rs

-- The requests from left to right, in front of `out`.
restore : List Indexed → List CheckpointRequest → List CheckpointRequest
restore [] out = out
restore ((i, r) ∷ xs) out = restore xs (r ∷ out)

unfoldable pub sort_checkpoint_batch : ℕ → List CheckpointRequest → Option (List CheckpointRequest)
unfolding place_all enumerate restore
sort_checkpoint_batch fuel batch =
    if leb (length batch) 1
    then some batch
    else Option.map (λ xs. restore xs []) (place_all fuel batch (enumerate 0 batch) [])
