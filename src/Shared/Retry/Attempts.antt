-- ===== src/Shared/Retry/Attempts.antt =====
-- Which attempt of `withRetry` gives its answer.
use nestjs_boilerplate.Base.{
  ℕ, zero, suc, ◌≤◌, ◌⊎◌, inl, inr, Option, none, some, Bool-cases, ◌+◌, ◌-◌, ◌*◌, ◌^◌, ◌==◌, ◌<◌,
  ◌≡◌, refl, Bool, true, false, Result, ok, err, Exception, Action, arith, ◌∙◌, ap,
}
use nestjs_boilerplate.Shared.Retry.{
  RetryOptions, number_or, retries, attempts, at_least_one, gives_up, retry_from, with_retry,
}

module _ {W A : Type 0} (op : Action W A) (wait : ℕ → W → W) (opts : RetryOptions) where
  -- `Failed k w v`: the first `k` attempts from `w` failed by errors that may pass, and the next one
  -- starts at `v`.
  pub data Failed : ℕ → W → W → Type 0 where
    start : (w : W) → Failed 0 w w
    again :
        {k : ℕ} {w v : W}
        → Failed k w v
        → (e : Exception) → (op v).0 ≡ err e
        → retries opts.should_retry e ≡ true
        → Failed (suc k) w (wait (number_or opts.base_delay_ms 500 * 2 ^ k) (op v).1)

  -- How many attempts there are at most: three by default, and one at least.
  abbrev pub max_of : Option ℕ → ℕ
  max_of none = 3
  max_of (some zero) = 1
  max_of (some (suc n)) = suc n

  abbrev pub max : ℕ
  max = max_of opts.attempts

  attempts-max : attempts op wait opts ≡ max
  attempts-max = by_option opts.attempts
    where
      by_option : (o : Option ℕ) → at_least_one (number_or o 3) ≡ max_of o
      by_option none = refl
      by_option (some zero) = refl
      by_option (some (suc n)) = ground arith

  -- Why the attempt behind `k` failed ones is the last: it succeeds, it is the last that there may
  -- be, or its error may not pass.
  abbrev pub IsLast : ℕ → Result A → Type 0
  IsLast k (ok a) = Unit
  IsLast k (err e) = (suc k ≡ max) ⊎ (retries opts.should_retry e ≡ false)

  abbrev ends : ℕ → Result A → Bool
  ends attempt (ok a) = true
  ends attempt (err e) = gives_up op wait opts attempt e

  next_attempt :
      (left attempt : ℕ) (v : W) (e : Exception)
      → (op v).0 ≡ err e
      → gives_up op wait opts attempt e ≡ false
      → retry_from op wait opts (suc left) attempt v
        ≡ retry_from op wait opts left
            (attempt + 1)
            (wait (number_or opts.base_delay_ms 500 * 2 ^ (attempt - 1)) (op v).1)
  unfolding retry_from
  next_attempt left attempt v e failed more = ground (arith, failed, more)

  last_attempt :
      (left attempt : ℕ) (v : W)
      → ends attempt (op v).0 ≡ true
      → retry_from op wait opts (suc left) attempt v ≡ op v
  unfolding retry_from
  last_attempt left attempt v done = answer (op v) refl
    where
      answer : (x : Result A × W) → op v ≡ x → retry_from op wait opts (suc left) attempt v ≡ op v
      answer (ok a, w') same = ground (arith, same)
      answer (err e, w') same = ground (arith, same, done)

  failed_lem :
      {k : ℕ} {w v : W}
      → Failed k w v
      → k < max
      → retry_from op wait opts max 1 w ≡ retry_from op wait opts (max - k) (k + 1) v
  failed_lem (start w) few =
      let all_left : max ≡ max - 0 = omega arith in
      ap (λ (n : ℕ). retry_from op wait opts n 1 w) all_left
  failed_lem (again {k} {w} {v} h e failed pass) few =
      let left : max - k ≡ suc (max - suc k) = omega (arith, few) in
      let same = attempts-max in
      let apart : ((k + 1) == attempts op wait opts) ≡ false = ground (arith, few, same) in
      let next : k + 1 ≡ suc k = omega arith in
      let exponent : k + 1 - 1 ≡ k = omega arith in
      let after = λ (attempt n : ℕ).
        retry_from op wait opts (max - suc k) attempt
          (wait (number_or opts.base_delay_ms 500 * 2 ^ n) (op v).1) in
      failed_lem h (omega (arith, few))
      ∙ ap (λ (n : ℕ). retry_from op wait opts n (k + 1) v) left
      ∙ next_attempt (max - suc k) (k + 1) v e failed (ground (arith, apart, pass))
      ∙ ap (after (k + 1 + 1)) exponent
      ∙ ap (λ (n : ℕ). after (n + 1) k) next

  answer_lem :
      {k : ℕ} {w v : W}
      → Failed k w v
      → k < max
      → ends (k + 1) (op v).0 ≡ true
      → with_retry op wait opts w ≡ op v
  unfolding with_retry
  answer_lem {k} {w} {v} h few done =
      let left : max - k ≡ suc (max - k - 1) = omega (arith, few) in
      ap (λ (n : ℕ). retry_from op wait opts n 1 w) attempts-max
      ∙ failed_lem h few
      ∙ ap (λ (n : ℕ). retry_from op wait opts n (k + 1) v) left
      ∙ last_attempt (max - k - 1) (k + 1) v done

  -- The attempt behind `k` failed ones is the last, or a further one is made.
  another_attempt :
      {k : ℕ} {w v : W}
      → Failed k w v
      → k < max
      → (IsLast k (op v).0 × (ends (k + 1) (op v).0 ≡ true))
        ⊎ ((u : W) × Failed (suc k) w u × (suc k < max))
  another_attempt {k} {w} {v} h few = by_result (op v).0 refl
    where
      by_result :
          (r : Result A)
          → (op v).0 ≡ r
          → (IsLast k r × (ends (k + 1) r ≡ true)) ⊎ ((u : W) × Failed (suc k) w u × (suc k < max))
      by_result (ok a) done = inl (tt, refl)
      by_result (err e) failed =
          let same = attempts-max in
          elim (Bool-cases (suc k == max)) [
            | inl last ↦
                let e' : suc k ≡ max = ground (arith, last) in
                inl (inl e', ground (arith, same, e'))
            | inr more ↦ elim (Bool-cases (retries opts.should_retry e)) [
              | inr fatal ↦ inl (inr fatal, ground (arith, fatal))
              | inl passing ↦ inr (_, again h e failed passing, ground (arith, more, few))
            ]
          ]

  ends_at :
      (fuel : ℕ) {k : ℕ} {w v : W}
      → Failed k w v
      → k < max
      → max ≤ k + fuel
      → (j : ℕ) × (u : W) × Failed j w u
        × (j < max)
        × IsLast j (op u).0
        × (with_retry op wait opts w ≡ op u)
  ends_at zero {k} h few enough = let no : ⊥ = omega (arith, few, enough) in elim no [ ]
  ends_at (suc fuel) {k} {w} {v} h few enough = elim (another_attempt h few) [
    | inl (last, done) ↦ (k, v, h, few, last, answer_lem h few done)
    | inr (u, h', more) ↦ ends_at fuel h' more (omega (arith, enough))
  ]

  max_positive : 0 < max
  max_positive = by_option opts.attempts
    where
      by_option : (o : Option ℕ) → 0 < max_of o
      by_option none = omega arith
      by_option (some zero) = omega arith
      by_option (some (suc n)) = omega arith

  -- `withRetry` ends, behind some number of failed attempts that is below the maximum (three by
  -- default, and one at least): each failed by an error that may pass and was followed by the
  -- backoff's delay, which doubles. The next attempt succeeds, is the last that there may be, or
  -- fails by an error that may not pass; its outcome, which is the last error where it fails, and
  -- its state are those of `withRetry`.
  pub with_retry_lem :
      (w : W)
      → (k : ℕ) × (v : W) × Failed k w v
        × (k < max)
        × IsLast k (op v).0
        × (with_retry op wait opts w ≡ op v)
  with_retry_lem w = ends_at max (start w) max_positive (omega arith)
