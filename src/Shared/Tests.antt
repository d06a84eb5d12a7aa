-- ===== src/Shared/Tests.antt =====
-- Runs of the lock, of the pagination, of the retries and of the pool of workers.
use nestjs_boilerplate.Base.{
  all, true, Result, ℕ, zero, suc, ◌≤◌, ◌<◌, ◌⊎◌, ◌+◌, ltb, length, List, [], ◌∷◌, err, failure,
  Exception, Action, ◌≡◌, refl, none, some, Text, codes, ok, arith, text_eq,
}
use nestjs_boilerplate.Shared.Concurrency.{
  rejected, looping, calling, PoolState, start as pool_start, store_result, Step, claim, settle,
  started, stepped,
}
use nestjs_boilerplate.Shared.Concurrency.Pool.{
  is_calling, is_finished, count, at_most, IsSettled, run_lem,
}
use nestjs_boilerplate.Shared.Pagination.{build_pagination_meta, page_of}
use nestjs_boilerplate.Shared.Pagination.Pages.{pages_from, build_pagination_meta_lem}
use nestjs_boilerplate.Shared.Retry.{RetryOptions, with_retry}
use nestjs_boilerplate.Shared.Retry.Attempts.{Failed, max, IsLast, with_retry_lem}
use nestjs_boilerplate.Shared.Redis.{release_lock}
use nestjs_boilerplate.Shared.Redis.Memory.{Contents, memory, empty}

abbrev mixed : List ℕ
mixed = 7 ∷ 1 ∷ 4 ∷ 4 ∷ 9 ∷ []

abbrev key : Text
key = codes "lock:sweep"

abbrev mine : Text
mine = codes "t1"

abbrev theirs : Text
theirs = codes "t2"

abbrev taken : Contents
taken = memory.set_ex key theirs 60 empty

-- A lock of another worker is not freed.
release_lock_test : memory.get key (release_lock memory key mine taken) ≡ some theirs
unfolding release_lock text_eq
release_lock_test = refl

-- The third page of five rows by two is the last one.
build_pagination_meta_lem_example :
    let meta = build_pagination_meta 5 3 2 in
    (pages_from 2 meta.total_pages 1 mixed ≡ mixed)
    × (meta.has_next_page ≡ ltb 0 (length (page_of 4 2 mixed)))
build_pagination_meta_lem_example = build_pagination_meta_lem 2 (omega arith) 3 mixed

-- A connection that is dropped at first.
abbrev blip : Exception
blip = failure "Connection terminated"

abbrev query : Action ℕ ℕ
query zero = (err blip, 1)
query (suc n) = (ok n, suc n)

abbrev wait : ℕ → ℕ → ℕ
wait ms time = time + ms

abbrev options : RetryOptions
options = record { attempts = none; base_delay_ms = none; should_retry = none }

with_retry_lem_example :
    (k : ℕ) × (v : ℕ) × Failed query wait options k 0 v
    × (k < max query wait options)
    × IsLast query wait options k (query v).0
    × (with_retry query wait options 0 ≡ query v)
with_retry_lem_example = with_retry_lem query wait options 0

-- Two items and one worker: the first call throws, and its slot says so.
abbrev root : ℕ → Result ℕ
root zero = err blip
root (suc i) = ok i

abbrev first_claimed : PoolState ℕ
first_claimed = record { cursor = 1; workers = calling 0 ∷ []; results = λ i. none }

abbrev first_settled : PoolState ℕ
first_settled = record {
  cursor = 1;
  workers = looping ∷ [];
  results = store_result 0 (rejected blip) (λ i. none);
}

run_lem_example :
    (count is_calling first_settled.workers ≤ at_most 1)
    × (2 ≤ 2 + 2 + 2 + 1)
    × (((all is_finished first_settled.workers ≡ true)
          × IsSettled (root 1) (first_settled.results 1))
        ⊎ ((t : PoolState ℕ) × Step 2 root first_settled t))
run_lem_example =
    run_lem 1 2 root 1
      (stepped (stepped started (claim (pool_start 1 2) [] [] refl (omega arith)))
        (settle first_claimed 0 [] [] refl))
      (omega arith)
