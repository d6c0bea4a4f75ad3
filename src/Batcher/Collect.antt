-- ===== src/Batcher/Collect.antt =====
-- `collect_batch` of sdk/src/state/batcher.rs. The queue is the list of the requests to come, each
-- with the time in milliseconds at which it arrives; when the list ends the queue is closed.
use durable_execution_rust_s.Prelude.{
  ℕ, ◌+◌, ◌≤◌, ◌<◌, ◌≡◌, refl, false, ltb, leb, if◌then◌else◌, List, [], ◌∷◌, ◌++◌, map, length,
  length-append, ◌⊎◌, arith, Bool-cases, inl, inr,
}
use mathlib.Core.List.{append_assoc}
use durable_execution_rust_s.Batcher.{CheckpointBatcherConfig, CheckpointRequest, estimated_size}

pub record Arrival : Type 0 where
  pub time : ℕ
  pub request : CheckpointRequest

-- The batch, and what is still to come.
pub record Collected : Type 0 where
  pub batch : List CheckpointRequest
  pub rest : List Arrival

abbrev later : ℕ → ℕ → ℕ
later now t = if ltb now t then t else now

push : List CheckpointRequest → CheckpointRequest → List CheckpointRequest
push batch r = batch ++ r ∷ []

-- The loop after the first request: `now` is the current time, `size` the bytes so far.
collect_more :
    CheckpointBatcherConfig → ℕ → ℕ → ℕ → List CheckpointRequest → List Arrival → Collected
unfolding push
collect_more config deadline now size batch [] = record { batch = batch; rest = [] }
collect_more config deadline now size batch (a ∷ rest) =
    let stop : Collected = record { batch = batch; rest = a ∷ rest } in
    let bytes = estimated_size a.request in
    let more =
      collect_more config deadline (later now a.time) (size + bytes) (push batch a.request) rest in
    if leb config.max_batch_operations (length batch)
    then stop
    else if leb deadline now
    then stop
    else if leb deadline a.time
    then stop
    else if ltb config.max_batch_size_bytes (size + bytes)
    then record { batch = push batch a.request; rest = rest }
    else more

-- The deadline is taken before the wait for the first request.
unfoldable pub collect_batch : CheckpointBatcherConfig → ℕ → List Arrival → Collected
unfolding collect_more
collect_batch config start [] = record { batch = []; rest = [] }
collect_batch config start (a ∷ rest) =
    collect_more config (start + config.max_batch_time_ms) (later start a.time)
      (estimated_size a.request) (a.request ∷ []) rest

abbrev pub requests : List Arrival → List CheckpointRequest
requests = map λ a. a.request

abbrev pub total_size : List CheckpointRequest → ℕ
total_size [] = 0
total_size (r ∷ rs) = estimated_size r + total_size rs

collect_more-order :
    (config : CheckpointBatcherConfig) (deadline now size : ℕ) (batch : List CheckpointRequest)
    (rest : List Arrival)
    → let c = collect_more config deadline now size batch rest in
      c.batch ++ requests c.rest ≡ batch ++ requests rest
unfolding collect_more
collect_more-order config deadline now size batch [] = refl
collect_more-order config deadline now size batch (a ∷ rest) = ground (
  arith,
  append_assoc batch (a.request ∷ []) (requests rest),
  collect_more-order config deadline (later now a.time) (size + estimated_size a.request)
      (push batch a.request) rest,
)

total_size-append :
    (xs ys : List CheckpointRequest) → total_size (xs ++ ys) ≡ total_size xs + total_size ys
total_size-append [] ys = omega arith
total_size-append (x ∷ xs) ys = omega (arith, total_size-append xs ys)

pushed_size :
    (batch : List CheckpointRequest) (r : CheckpointRequest) {size : ℕ}
    → size ≡ total_size batch
    → size + estimated_size r ≡ total_size (push batch r)
unfolding push
pushed_size batch r e = omega (arith, total_size-append batch (r ∷ []), e)

late :
    (config : CheckpointBatcherConfig) (deadline now size : ℕ) (batch : List CheckpointRequest)
    (rest : List Arrival)
    → deadline ≤ now
    → collect_more config deadline now size batch rest ≡ record { batch = batch; rest = rest }
unfolding collect_more
late config deadline now size batch [] h = refl
late config deadline now size batch (a ∷ rest) h = ground arith

-- The requests before the last stay within the byte limit, or there is at most one of them; and the
-- batch stays within the limit of operations, or it has one request.
pub record Bounded (config : CheckpointBatcherConfig) (batch : List CheckpointRequest)
    : Type 0 where
  pub front : List CheckpointRequest
  pub last : CheckpointRequest
  pub parts : batch ≡ front ++ last ∷ []
  pub bytes : (total_size front ≤ config.max_batch_size_bytes) ⊎ (length front ≤ 1)
  pub count : (length batch ≤ config.max_batch_operations) ⊎ (length batch ≡ 1)

push-Bounded :
    (config : CheckpointBatcherConfig) (batch : List CheckpointRequest) (r : CheckpointRequest)
    → (total_size batch ≤ config.max_batch_size_bytes) ⊎ (length batch ≤ 1)
    → leb config.max_batch_operations (length batch) ≡ false
    → Bounded config (push batch r)
unfolding push
push-Bounded config batch r small few = record {
  front = batch;
  last = r;
  parts = refl;
  bytes = small;
  count = inl (ground (arith, length-append batch (r ∷ [])));
}

collect_more-Bounded :
    (config : CheckpointBatcherConfig) (deadline now size : ℕ) (batch : List CheckpointRequest)
    (rest : List Arrival)
    → Bounded config batch
    → size ≡ total_size batch
    → (total_size batch ≤ config.max_batch_size_bytes) ⊎ (length batch ≤ 1)
    → Bounded config (collect_more config deadline now size batch rest).batch
unfolding collect_more
collect_more-Bounded config deadline now size batch [] b e small = b
collect_more-Bounded config deadline now size batch (a ∷ rest) b e small =
    elim (Bool-cases (leb config.max_batch_operations (length batch))) [
      | inl full ↦ rw full b
      | inr few ↦ elim (Bool-cases (leb deadline now)) [
        | inl late ↦ rw (few, late) b
        | inr now_ok ↦ elim (Bool-cases (leb deadline a.time)) [
          | inl timeout ↦ rw (few, now_ok, timeout) b
          | inr in_time ↦
              elim (Bool-cases
                (ltb config.max_batch_size_bytes (size + estimated_size a.request))) [
                  | inl over ↦
                      rw (few, now_ok, in_time, over)
                        (push-Bounded config batch a.request small few)
                  | inr fits ↦
                      rw (few, now_ok, in_time, fits)
                        (collect_more-Bounded config deadline (later now a.time)
                          (size + estimated_size a.request) (push batch a.request) rest
                          (push-Bounded config batch a.request small few)
                          (pushed_size batch a.request e)
                          (inl (ground (arith, pushed_size batch a.request e))))
                ]
        ]
      ]
    ]

-- No request is lost, duplicated or reordered: the batch followed by what is still to come is the
-- requests in their order of arrival.
pub collect_batch-order :
    (config : CheckpointBatcherConfig) (start : ℕ) (arrivals : List Arrival)
    → (collect_batch config start arrivals).batch
        ++ requests (collect_batch config start arrivals).rest
      ≡ requests arrivals
unfolding collect_batch
collect_batch-order config start [] = refl
collect_batch-order config start (a ∷ rest) =
    collect_more-order config (start + config.max_batch_time_ms) (later start a.time)
      (estimated_size a.request) (a.request ∷ []) rest

-- When a request is to come, the batch is not empty, the requests before its last stay within the
-- byte limit or are at most one, and it has at most the configured number of operations, or one.
pub collect_batch-Bounded :
    (config : CheckpointBatcherConfig) (start : ℕ) (a : Arrival) (rest : List Arrival)
    → Bounded config (collect_batch config start (a ∷ rest)).batch
unfolding collect_batch
collect_batch-Bounded config start a rest =
    collect_more-Bounded config (start + config.max_batch_time_ms) (later start a.time)
      (estimated_size a.request) (a.request ∷ []) rest
      (record {
        front = [];
        last = a.request;
        parts = refl;
        bytes = inr (omega arith);
        count = inr refl;
      })
      (omega arith) (inr (omega arith))

-- A first request that comes only when the batch time since the start of the wait is over makes a
-- batch of its own, whatever is queued behind it.
pub late_first_alone :
    (config : CheckpointBatcherConfig) (start : ℕ) (a : Arrival) (rest : List Arrival)
    → start + config.max_batch_time_ms ≤ a.time
    → collect_batch config start (a ∷ rest) ≡ record { batch = a.request ∷ []; rest = rest }
unfolding collect_batch
late_first_alone config start a rest h =
    late config (start + config.max_batch_time_ms) (later start a.time) (estimated_size a.request)
      (a.request ∷ []) rest (ground arith)

-- When the batch time is not zero and a batch may have two operations, two requests that are in
-- time and together exceed the byte limit are sent in one batch, which exceeds the limit.
pub overflow_in_batch :
    (config : CheckpointBatcherConfig) (start : ℕ) (a b : Arrival) (rest : List Arrival)
    → 0 < config.max_batch_time_ms
    → a.time < start + config.max_batch_time_ms
    → b.time < start + config.max_batch_time_ms
    → 2 ≤ config.max_batch_operations
    → config.max_batch_size_bytes < estimated_size a.request + estimated_size b.request
    → ((collect_batch config start (a ∷ b ∷ rest)).batch ≡ a.request ∷ b.request ∷ [])
      × (config.max_batch_size_bytes < total_size (collect_batch config start (a ∷ b ∷ rest)).batch)
unfolding collect_batch collect_more
overflow_in_batch config start a b rest some_time ta tb ops over = (ground arith, ground arith)
