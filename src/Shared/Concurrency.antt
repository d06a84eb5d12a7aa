-- ===== src/Shared/Concurrency.antt =====
-- src/modules/shared/common/utils/map-with-concurrency.ts: a pool of workers that share a cursor. The
-- workers take turns at each `await`: the steps of the pool are a relation, in which any worker may
-- be the next one.
pub mod Pool
use nestjs_boilerplate.Base.{
  ℕ, zero, suc, ◌+◌, ◌<◌, ◌≤◌, ◌≡◌, ◌==◌, ltb, Option, none, some, List, [], ◌∷◌, ◌++◌,
  if◌then◌else◌, Exception, Result, ok, err, Action,
}

pub data PromiseSettledResult (A : Type 0) : Type 0 where
  fulfilled : A → PromiseSettledResult A
  rejected : Exception → PromiseSettledResult A

-- `try { … } catch (reason) { … }` around the call of the worker
abbrev pub settled : {A : Type 0} → Result A → PromiseSettledResult A
settled (ok a) = fulfilled a
settled (err reason) = rejected reason

-- `Math.max(1, Math.min(limit, items.length))`
abbrev pub min : ℕ → ℕ → ℕ
min m n = if ltb m n then m else n

abbrev pub worker_count : ℕ → ℕ → ℕ
worker_count limit n = if ltb (min limit n) 1 then 1 else min limit n

-- A worker in `run`: at the head of its loop, waiting for the call on the item of an index, or
-- behind the loop.
pub data WorkerState : Type 0 where
  looping : WorkerState
  calling : ℕ → WorkerState
  finished : WorkerState

-- A slot of `results` is empty until it is written.
pub record PoolState (A : Type 0) : Type 0 where
  pub cursor : ℕ
  pub workers : List WorkerState
  pub results : ℕ → Option (PromiseSettledResult A)

-- `Array.from({ length: workers }, () => run())`
abbrev pub run_all : ℕ → List WorkerState
run_all zero = []
run_all (suc k) = looping ∷ run_all k

-- `start limit n`: the pool for `n` items.
abbrev pub start : {A : Type 0} → ℕ → ℕ → PoolState A
start limit n = record { cursor = 0; workers = run_all (worker_count limit n); results = λ i. none }

abbrev pub store_result :
    {A : Type 0}
    → ℕ
    → PromiseSettledResult A
    → (ℕ → Option (PromiseSettledResult A))
    → ℕ
    → Option (PromiseSettledResult A)
store_result i r results j = if i == j then some r else results j

-- `outcome i` is what the call on item `i` returns or throws. A worker at the head of its loop claims
-- the item at the cursor, or leaves the loop where no item is left; a worker whose call is over
-- stores its result and is back at the head.
pub data Step {A : Type 0} (n : ℕ) (outcome : ℕ → Result A)
    : PoolState A → PoolState A → Type 0 where
  claim :
      (s : PoolState A) (before after : List WorkerState)
      → s.workers ≡ before ++ looping ∷ after
      → s.cursor < n
      → Step n outcome s
          (record s { cursor = s.cursor + 1; workers = before ++ calling s.cursor ∷ after })
  leave :
      (s : PoolState A) (before after : List WorkerState)
      → s.workers ≡ before ++ looping ∷ after
      → n ≤ s.cursor
      → Step n outcome s (record s { workers = before ++ finished ∷ after })
  settle :
      (s : PoolState A) (i : ℕ) (before after : List WorkerState)
      → s.workers ≡ before ++ calling i ∷ after
      → Step n outcome s (record s {
        workers = before ++ looping ∷ after;
        results = store_result i (settled (outcome i)) s.results;
      })

-- `Run limit n outcome k s`: the pool for `n` items can come to `s` from the start in `k` steps.
pub data Run {A : Type 0} (limit n : ℕ) (outcome : ℕ → Result A) : ℕ → PoolState A → Type 0 where
  started : Run limit n outcome 0 (start limit n)
  stepped :
      {k : ℕ} {s t : PoolState A}
      → Run limit n outcome k s
      → Step n outcome s t
      → Run limit n outcome (k + 1) t

-- The whole call, where a worker's call is one step of the state: the calls are made in the order
-- of the items, and their results stand in that order.
module _ {W A B : Type 0} (worker : A → Action W B) where
  unfoldable pub map_with_concurrency : List A → W → List (PromiseSettledResult B) × W
  map_with_concurrency [] w = ([], w)
  map_with_concurrency (item ∷ items) w =
      let (r, w') = worker item w in
      let (rest, w'') = map_with_concurrency items w' in (settled r ∷ rest, w'')
