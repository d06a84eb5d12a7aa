-- ===== src/Shared/Concurrency/Pool.antt =====
-- Every run of the pool.
use nestjs_boilerplate.Base.{
  ℕ, zero, suc, ◌+◌, ◌<◌, ◌≤◌, ◌≡◌, ◌≢◌, ◌==◌, refl, ap, Bool, true, false, ◌||◌, Option, some,
  List, [], ◌∷◌, ◌++◌, length, length-filter, any, all, filter, Bool-cases, inl, inr, arith, ltb,
  ◌⊎◌, Result, ok, err, sym, ◌∙◌, subst,
}
use nestjs_boilerplate.Shared.Concurrency.{
  PromiseSettledResult, fulfilled, rejected, settled, WorkerState, looping, calling, finished,
  PoolState, run_all, worker_count, Step, claim, leave, settle, Run, started, stepped,
}

abbrev pub is_calling : WorkerState → Bool
is_calling (calling i) = true
is_calling _ = false

abbrev pub is_finished : WorkerState → Bool
is_finished finished = true
is_finished _ = false

abbrev is_on : ℕ → WorkerState → Bool
is_on i (calling j) = j == i
is_on i _ = false

-- How many workers pass a test.
abbrev pub count : (WorkerState → Bool) → List WorkerState → ℕ
count p ws = length (filter p ws)

-- The number of workers that a limit allows: one at least.
abbrev pub at_most : ℕ → ℕ
at_most zero = 1
at_most (suc l) = suc l

-- A slot holds the value that the call returned, or what it threw.
abbrev pub IsSettled : {A : Type 0} → Result A → Option (PromiseSettledResult A) → Type 0
IsSettled (ok a) slot = slot ≡ some (fulfilled a)
IsSettled (err reason) slot = slot ≡ some (rejected reason)

settled-IsSettled : {A : Type 0} (r : Result A) → IsSettled r (some (settled r))
settled-IsSettled (ok a) = refl
settled-IsSettled (err reason) = refl

count-append :
    (p : WorkerState → Bool) (xs ys : List WorkerState)
    → count p (xs ++ ys) ≡ count p xs + count p ys
count-append p [] ys = omega arith
count-append p (x ∷ xs) ys = ground (arith, count-append p xs ys)

any-append :
    (p : WorkerState → Bool) (xs ys : List WorkerState) → any p (xs ++ ys) ≡ (any p xs || any p ys)
any-append p [] ys = refl
any-append p (x ∷ xs) ys = ground (arith, any-append p xs ys)

length-split :
    (xs ys : List WorkerState) (w : WorkerState)
    → length (xs ++ w ∷ ys) ≡ length xs + suc (length ys)
length-split [] ys w = omega arith
length-split (x ∷ xs) ys w = ground (arith, length-split xs ys w)

-- At the start every worker is at the head of its loop.
run_all_lem :
    (k : ℕ)
    → (length (run_all k) ≡ k)
      × (count is_calling (run_all k) ≡ 0)
      × (count is_finished (run_all k) ≡ 0)
run_all_lem zero = (refl, refl, refl)
run_all_lem (suc k) =
    let (size, calls, ends) = run_all_lem k in (ap (λ (m : ℕ). suc m) size, calls, ends)

finished-all :
    (ws : List WorkerState) → all is_finished ws ≡ true → count is_finished ws ≡ length ws
finished-all [] h = refl
finished-all (w ∷ ws) h = let rest = finished-all ws (ground (arith, h)) in ground (arith, h, rest)

none_on : (i : ℕ) (ws : List WorkerState) → all is_finished ws ≡ true → any (is_on i) ws ≡ false
none_on i [] h = refl
none_on i (looping ∷ ws) h = ground (arith, h)
none_on i (calling j ∷ ws) h = ground (arith, h)
none_on i (finished ∷ ws) h = none_on i ws h

-- Every worker is behind its loop, or one is not.
next_worker :
    (ws : List WorkerState)
    → (all is_finished ws ≡ true)
      ⊎ ((before : List WorkerState) × (w : WorkerState) × (after : List WorkerState) × (ws
            ≡ before ++ w ∷ after)
          × (is_finished w ≡ false))
next_worker [] = inl refl
next_worker (looping ∷ ws) = inr ([], looping, ws, refl, refl)
next_worker (calling i ∷ ws) = inr ([], calling i, ws, refl, refl)
next_worker (finished ∷ ws) = elim (next_worker ws) [
  | inl over ↦ inl over
  | inr (before, w, after, same, works) ↦
      inr (finished ∷ before, w, after, ap (λ (xs : List WorkerState). finished ∷ xs) same, works)
]

-- A worker in the place of another one.
module _ (ws before after : List WorkerState) (v w : WorkerState)
    (same : ws ≡ before ++ v ∷ after) where
  length-replaced : length (before ++ w ∷ after) ≡ length ws
  length-replaced =
      length-split before after w
      ∙ sym (length-split before after v)
      ∙ ap (λ (xs : List WorkerState). length xs) (sym same)

  count-replaced :
      (p : WorkerState → Bool)
      → count p (before ++ w ∷ after) + count p (v ∷ []) ≡ count p ws + count p (w ∷ [])
  count-replaced p =
      let old = ap (count p) same in
      let split = count-append p before (v ∷ after) in
      let split' = count-append p before (w ∷ after) in
      let head = count-append p (v ∷ []) after in
      let head' = count-append p (w ∷ []) after in omega (arith, old, split, split', head, head')

  any-replaced :
      (p : WorkerState → Bool)
      → any p (before ++ w ∷ after) ≡ false
      → p v ≡ false
      → any p ws ≡ false
  any-replaced p rests other =
      let parts = any-append p before (w ∷ after) in
      let parts' = any-append p before (v ∷ after) in
      ap (any p) same ∙ ground (arith, rests, other, parts, parts')

module _ {A : Type 0} (limit n : ℕ) (outcome : ℕ → Result A) where
  -- No worker is lost; a claimed item is being worked on or has its result.
  record Sound (k : ℕ) (s : PoolState A) : Type 0 where
    size : length s.workers ≡ worker_count limit n
    within : s.cursor ≤ n
    counted : k + count is_calling s.workers ≡ s.cursor + s.cursor + count is_finished s.workers
    over : (count is_finished s.workers ≡ 0) ⊎ (n ≤ s.cursor)
    filled :
        (i : ℕ)
        → i < s.cursor
        → any (is_on i) s.workers ≡ false
        → IsSettled (outcome i) (s.results i)

  Step-Sound : {k : ℕ} {s t : PoolState A} → Sound k s → Step n outcome s t → Sound (k + 1) t
  Step-Sound {k} sound (claim s before after same more) =
      let calls =
        count-replaced s.workers before after looping (calling s.cursor) same is_calling in
      let ends =
        count-replaced s.workers before after looping (calling s.cursor) same is_finished in
      record {
        size = length-replaced s.workers before after looping (calling s.cursor) same ∙ sound.size;
        within = omega (arith, more);
        counted = omega (arith, sound.counted, calls, ends);
        over = elim sound.over [
          | inl nobody ↦ inl (omega (arith, nobody, ends))
          | inr past ↦ inr (omega (arith, past))
        ];
        filled = λ i claimed rests.
            let parts = any-append (is_on i) before (calling s.cursor ∷ after) in
            let apart : (s.cursor == i) ≡ false = ground (arith, rests, parts) in
            let differs : i ≢ s.cursor = ground (arith, apart) in
            sound.filled i (omega (arith, claimed, differs)) (
              any-replaced s.workers before after looping (calling s.cursor) same (is_on i) rests
                refl);
      }
  Step-Sound {k} sound (leave s before after same past) =
      let calls = count-replaced s.workers before after looping finished same is_calling in
      let ends = count-replaced s.workers before after looping finished same is_finished in
      record {
        size = length-replaced s.workers before after looping finished same ∙ sound.size;
        within = sound.within;
        counted = omega (arith, sound.counted, calls, ends);
        over = inr past;
        filled = λ i claimed rests.
            sound.filled i claimed
              (any-replaced s.workers before after looping finished same (is_on i) rests refl);
      }
  Step-Sound {k} sound (settle s j before after same) =
      let calls = count-replaced s.workers before after (calling j) looping same is_calling in
      let ends = count-replaced s.workers before after (calling j) looping same is_finished in
      record {
        size = length-replaced s.workers before after (calling j) looping same ∙ sound.size;
        within = sound.within;
        counted = omega (arith, sound.counted, calls, ends);
        over = elim sound.over [
          | inl nobody ↦ inl (omega (arith, nobody, ends))
          | inr past ↦ inr past
        ];
        filled = λ i claimed rests. elim (Bool-cases (j == i)) [
          | inl this ↦
              let e : j ≡ i = ground (arith, this) in
              rw this (
                subst (λ (x : ℕ). IsSettled (outcome x) (some (settled (outcome j)))) e
                  (settled-IsSettled (outcome j)))
          | inr other ↦ rw other (
              sound.filled i claimed (
                any-replaced s.workers before after (calling j) looping same (is_on i) rests other))
        ];
      }

  Run-Sound : {k : ℕ} {s : PoolState A} → Run limit n outcome k s → Sound k s
  Run-Sound started =
      let (size, calls, ends) = run_all_lem (worker_count limit n) in
      record {
        size = size;
        within = omega arith;
        counted = omega (arith, calls, ends);
        over = inl ends;
        filled = λ i claimed rests. let no : ⊥ = omega (arith, claimed) in elim no [ ];
      }
  Run-Sound (stepped run step) = Step-Sound (Run-Sound run) step

  -- A worker that is not behind its loop has a step.
  next-Step :
      (s : PoolState A) (before after : List WorkerState) (w : WorkerState)
      → s.workers ≡ before ++ w ∷ after
      → is_finished w ≡ false
      → (t : PoolState A) × Step n outcome s t
  next-Step s before after looping same works = elim (Bool-cases (ltb s.cursor n)) [
    | inl more ↦ (_, claim s before after same (ground (arith, more)))
    | inr done ↦ (_, leave s before after same (ground (arith, done)))
  ]
  next-Step s before after (calling i) same works = (_, settle s i before after same)
  next-Step s before after finished same works = ground (arith, works)

  workers-at_most : worker_count limit n ≤ at_most limit
  workers-at_most = by_limit limit
    where
      by_limit : (l : ℕ) → worker_count l n ≤ at_most l
      by_limit zero = ground arith
      by_limit (suc l) = ground arith

  -- In a run of the pool no more calls are open at once than the limit allows, which is one at
  -- least. A run for `n` items has at most `3n + 1` steps. Either it can go on, or every worker has
  -- ended; then the slot of each item holds what the call on this item returned or threw.
  pub run_lem :
      {k : ℕ} {s : PoolState A} (i : ℕ)
      → Run limit n outcome k s
      → i < n
      → (count is_calling s.workers ≤ at_most limit)
        × (k ≤ n + n + n + 1)
        × (((all is_finished s.workers ≡ true) × IsSettled (outcome i) (s.results i))
            ⊎ ((t : PoolState A) × Step n outcome s t))
  run_lem {k} {s} i run item =
      let sound = Run-Sound run in
      let size = sound.size in
      let calls = length-filter is_calling s.workers in
      let ends = length-filter is_finished s.workers in
      let few : worker_count limit n ≤ n + 1 = ground arith in
      (
        omega (arith, calls, size, workers-at_most),
        omega (arith, sound.counted, sound.within, ends, size, few),
        elim (next_worker s.workers) [
          | inr (before, w, after, same, works) ↦ inr (next-Step s before after w same works)
          | inl over ↦
              let every = finished-all s.workers over in
              let a_worker : 0 < worker_count limit n = ground arith in
              let past : n ≤ s.cursor = elim sound.over [
                | inr past ↦ past
                | inl nobody ↦ omega (arith, nobody, every, size, a_worker)
              ] in
              inl (over, sound.filled i (omega (arith, item, past)) (none_on i s.workers over))
        ],
      )
