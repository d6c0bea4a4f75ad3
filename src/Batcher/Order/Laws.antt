-- ===== src/Batcher/Order/Laws.antt =====
-- `sort_checkpoint_batch` of sdk/src/state/batcher.rs: its end, its elements and the completions of
-- the execution.
use durable_execution_rust_s.Prelude.{
  ℕ, zero, suc, ◌+◌, ◌<◌, ◌≡◌, refl, String, leb, if◌then◌else◌, Bool, true, false, ◌⊎◌, inl, inr,
  Option, none, some, is_some, List, [], ◌∷◌, ◌++◌, length, All, arith, Bool-cases, Option-cases,
}
use durable_execution_rust_s.Prelude.Tally.{tally}
use durable_execution_rust_s.Operation.Update.{OperationUpdate}
use durable_execution_rust_s.Batcher.{CheckpointRequest}
use durable_execution_rust_s.Batcher.Order.{
  Ordering, Indexed, parent_of, walk, is_ancestor, is_exec_completion, child_or_below,
  starts_parent, when, same_operation, compare, is_less, shift, place, place_all, enumerate,
  restore, sort_checkpoint_batch,
}

-- No operation is above itself: a parent ranks below its child, and the fuel is above all ranks.
pub record Acyclic (fuel : ℕ) (batch : List CheckpointRequest) (rank : String → ℕ) : Type 0 where
  pub falls : (id parent : String) → parent_of batch id ≡ some parent → rank parent < rank id
  pub enough : (id : String) → rank id < fuel

abbrev is_last : CheckpointRequest → Bool
is_last r = is_exec_completion r.operation

abbrev completion : CheckpointRequest → ℕ
completion r = if is_last r then 1 else 0

abbrev on_request : (CheckpointRequest → ℕ) → Indexed → ℕ
on_request w (i, r) = w r

-- Read from right to left, nothing but completions of the execution precedes another request.
abbrev Settled : List Indexed → Type 0
Settled [] = Unit {0}
Settled ((i, r) ∷ ys) = ((is_last r ≡ true) ⊎ (tally (on_request completion) ys ≡ 0)) × Settled ys

-- First requests that do not complete the execution, then requests that do.
pub record CompletionsLast (rs : List CheckpointRequest) : Type 0 where
  pub front : List CheckpointRequest
  pub back : List CheckpointRequest
  pub parts : rs ≡ front ++ back
  pub before : All (λ r. is_last r ≡ false) front
  pub after : All (λ r. is_last r ≡ true) back

tally-enumerate :
    (w : CheckpointRequest → ℕ) (i : ℕ) (rs : List CheckpointRequest)
    → tally (on_request w) (enumerate i rs) ≡ tally w rs
unfolding enumerate
tally-enumerate w i [] = refl
tally-enumerate w i (r ∷ rs) = omega (arith, tally-enumerate w (suc i) rs)

tally-restore :
    (w : CheckpointRequest → ℕ) (xs : List Indexed) (out : List CheckpointRequest)
    → tally w (restore xs out) ≡ tally (on_request w) xs + tally w out
unfolding restore
tally-restore w [] out = omega arith
tally-restore w ((i, r) ∷ xs) out = omega (arith, tally-restore w xs (r ∷ out))

restore-append :
    (xs : List Indexed) (ys out : List CheckpointRequest)
    → restore xs (ys ++ out) ≡ restore xs ys ++ out
unfolding restore
restore-append [] ys out = refl
restore-append ((i, r) ∷ xs) ys out = restore-append xs (r ∷ ys) out

restore-before :
    (xs : List Indexed) (out : List CheckpointRequest)
    → tally (on_request completion) xs ≡ 0
    → All (λ r. is_last r ≡ false) out
    → All (λ r. is_last r ≡ false) (restore xs out)
unfolding restore
restore-before [] out h k = k
restore-before ((i, r) ∷ xs) out h k = restore-before xs (r ∷ out) (ground arith) (ground arith, k)

restore-CompletionsLast :
    (xs : List Indexed) (out : List CheckpointRequest)
    → Settled xs
    → All (λ r. is_last r ≡ true) out
    → CompletionsLast (restore xs out)
unfolding restore
restore-CompletionsLast [] out h k = record {
  front = [];
  back = out;
  parts = refl;
  before = tt;
  after = k;
}
restore-CompletionsLast ((i, r) ∷ xs) out h k = elim (Bool-cases (is_last r)) [
  | inl c ↦ restore-CompletionsLast xs (r ∷ out) h.1 (c, k)
  | inr n ↦ record {
    front = restore xs (r ∷ []);
    back = out;
    parts = restore-append xs (r ∷ []) out;
    before = restore-before xs (r ∷ []) (ground (arith, h.0)) (n, tt);
    after = k;
  }
]

small-CompletionsLast :
    (rs : List CheckpointRequest) → leb (length rs) 1 ≡ true → CompletionsLast rs
small-CompletionsLast [] h = record { front = []; back = []; parts = refl; before = tt; after = tt }
small-CompletionsLast (r ∷ []) h = elim (Bool-cases (is_last r)) [
  | inl c ↦ record { front = []; back = r ∷ []; parts = refl; before = tt; after = (c, tt) }
  | inr n ↦ record { front = r ∷ []; back = []; parts = refl; before = (n, tt); after = tt }
]
small-CompletionsLast (r ∷ q ∷ rs) h = absurd (ground arith)

module _ (fuel : ℕ) (batch : List CheckpointRequest) (rank : String → ℕ)
    (acyclic : Acyclic fuel batch rank) where
  abbrev depth : Option String → ℕ
  depth none = 0
  depth (some id) = suc (rank id)

  parent-depth : (id : String) (n : ℕ) → rank id < n → depth (parent_of batch id) < n
  parent-depth id n h = elim (Option-cases (parent_of batch id)) [
    | inl e ↦ rw e (omega arith)
    | inr (p, e) ↦ rw e (omega (arith, acyclic.falls id p e))
  ]

  walk_ends :
      (ancestor : String) (n : ℕ) (current : Option String)
      → depth current < n
      → is_some (walk batch ancestor n current) ≡ true
  unfolding walk
  walk_ends ancestor zero current h = absurd (omega arith)
  walk_ends ancestor (suc n) none h = refl
  walk_ends ancestor (suc n) (some id) h =
      ground (arith, walk_ends ancestor n (parent_of batch id) (parent-depth id n (omega arith)))

  child_or_below_ends :
      (parent : Option String) (a b : OperationUpdate)
      → is_some (child_or_below fuel batch parent a b) ≡ true
  unfolding child_or_below is_ancestor
  child_or_below_ends none a b = refl
  child_or_below_ends (some p) a b = ground (
    arith,
    walk_ends b.operation_id fuel (parent_of batch a.operation_id)
        (parent-depth a.operation_id fuel (acyclic.enough a.operation_id)),
  )

  starts_parent_ends : (a b : OperationUpdate) → is_some (starts_parent fuel batch a b) ≡ true
  unfolding starts_parent
  starts_parent_ends a b = ground (arith, child_or_below_ends a.parent_id a b)

  when_ends :
      (t : Option Bool) (order : Ordering) (rest : Option Ordering)
      → is_some t ≡ true
      → is_some rest ≡ true
      → is_some (when t order rest) ≡ true
  unfolding when
  when_ends none order rest h k = absurd (ground arith)
  when_ends (some true) order rest h k = refl
  when_ends (some false) order rest h k = k

  compare_ends : (x y : Indexed) → is_some (compare fuel batch x y) ≡ true
  unfolding compare
  compare_ends (i, a) (j, b) = ground (
    arith,
    when_ends (starts_parent fuel batch a.operation b.operation) Ordering.greater
        (when (starts_parent fuel batch b.operation a.operation) Ordering.less
          (some (same_operation (i, a) (j, b))))
        (starts_parent_ends a.operation b.operation)
        (when_ends (starts_parent fuel batch b.operation a.operation) Ordering.less
          (some (same_operation (i, a) (j, b))) (starts_parent_ends b.operation a.operation) refl),
  )

  -- The result of placing `xs` into `ys`.
  abbrev Holds : List Indexed → List Indexed → Option (List Indexed) → Type 0
  Holds xs ys o =
      (zs : List Indexed) × (o ≡ some zs)
      × ((w : CheckpointRequest → ℕ)
          → tally (on_request w) zs ≡ tally (on_request w) xs + tally (on_request w) ys)
      × (Settled ys → Settled zs)

  completion_order :
      (i j : ℕ) (a b : CheckpointRequest)
      → (is_last a ≡ true
          → is_last b ≡ false
          → compare fuel batch (i, a) (j, b) ≡ some Ordering.greater)
        × (is_last a ≡ false
            → is_last b ≡ true
            → compare fuel batch (i, a) (j, b) ≡ some Ordering.less)
  unfolding compare
  completion_order i j a b = (λ h k. ground arith, λ h k. ground arith)

  place-Holds : (x : Indexed) (ys : List Indexed) → Holds (x ∷ []) ys (place fuel batch x ys)
  unfolding place shift is_less
  place-Holds (i, a) [] = ((i, a) ∷ [], refl, λ w. omega arith, λ s. (inr refl, tt))
  place-Holds (i, a) ((j, b) ∷ ys) = elim (Option-cases (compare fuel batch (i, a) (j, b))) [
    | inl e ↦ absurd (ground (arith, compare_ends (i, a) (j, b)))
    | inr (order, e) ↦ elim (Bool-cases (is_less order)) [
      | inl less ↦
          let (zs, p, t, s) = place-Holds (i, a) ys in
          (
            (j, b) ∷ zs,
            rw (e, less, p) refl,
            λ w. omega (arith, t w),
            λ h. (ground (arith, t completion, h.0, completion_order i j a b), s h.1),
          )
      | inr stop ↦ (
        (i, a) ∷ (j, b) ∷ ys,
        rw (e, stop) refl,
        λ w. omega arith,
        λ h. (ground (arith, h.0, completion_order i j a b), h),
      )
    ]
  ]

  place_all-Holds : (xs ys : List Indexed) → Holds xs ys (place_all fuel batch xs ys)
  unfolding place_all
  place_all-Holds [] ys = (ys, refl, λ w. omega arith, λ s. s)
  place_all-Holds (x ∷ xs) ys =
      let (zs, p, t, s) = place-Holds x ys in
      let (us, q, t', s') = place_all-Holds xs zs in
      (us, rw p q, λ w. omega (arith, t w, t' w), λ h. s' (s h))

  -- If no operation of the batch is above itself and the fuel is above the ranks, sorting ends;
  -- the sorted batch has every request as often as the batch, and the completions of the execution
  -- stand last.
  pub sort_checkpoint_batch_ends :
      (sorted : List CheckpointRequest) × (sort_checkpoint_batch fuel batch ≡ some sorted)
      × ((w : CheckpointRequest → ℕ) → tally w sorted ≡ tally w batch)
      × CompletionsLast sorted
  unfolding sort_checkpoint_batch
  sort_checkpoint_batch_ends = elim (Bool-cases (leb (length batch) 1)) [
    | inl small ↦ (batch, rw small refl, λ w. refl, small-CompletionsLast batch small)
    | inr large ↦
        let (xs, p, t, s) = place_all-Holds (enumerate 0 batch) [] in
        (
          restore xs [],
          rw (large, p) refl,
          λ w. omega (arith, tally-restore w xs [], t w, tally-enumerate w 0 batch),
          restore-CompletionsLast xs [] (s tt) tt,
        )
  ]
