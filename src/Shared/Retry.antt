-- ===== src/Shared/Retry.antt =====
-- src/modules/shared/common/utils/retry.util.ts: an operation is tried again after an error that
-- may pass.
pub mod Attempts
use nestjs_boilerplate.Base.{
  ℕ, zero, suc, ◌+◌, ◌-◌, ◌*◌, ◌^◌, ◌==◌, ltb, ◌||◌, not, Bool, true, false, Option, none, some,
  if◌then◌else◌, Result, ok, err, failure, Exception, Action, throw,
}

-- `opts`; the jitter is the timer's.
pub record RetryOptions : Type 0 where
  pub attempts : Option ℕ
  pub base_delay_ms : Option ℕ
  pub should_retry : Option (Exception → Bool)

abbrev pub retries : Option (Exception → Bool) → Exception → Bool
retries none e = true
retries (some should_retry) e = should_retry e

-- `value ?? fallback`
abbrev pub number_or : Option ℕ → ℕ → ℕ
number_or none fallback = fallback
number_or (some n) fallback = n

-- `Math.max(1, n)`
abbrev pub at_least_one : ℕ → ℕ
at_least_one n = if ltb n 1 then 1 else n

-- `wait` is the timer: the state after the given number of milliseconds and the jitter. The loop
-- runs on the number of attempts that are left.
module _ {W A : Type 0} (op : Action W A) (wait : ℕ → W → W) (opts : RetryOptions) where
  abbrev pub attempts : ℕ
  attempts = at_least_one (number_or opts.attempts 3)

  abbrev pub backoff : ℕ → ℕ
  backoff attempt = number_or opts.base_delay_ms 500 * 2 ^ (attempt - 1)

  abbrev pub gives_up : ℕ → Exception → Bool
  gives_up attempt e = (attempt == attempts) || not (retries opts.should_retry e)

  unfoldable pub retry_from : ℕ → ℕ → Action W A
  retry_from zero attempt w = (err (failure "withRetry: exhausted without resolving"), w)
  retry_from (suc left) attempt w =
      let again = retry_from left (attempt + 1) in
      let (r, w') = op w in
      elim r [
        | ok a ↦ (ok a, w')
        | err e ↦ elim (gives_up attempt e) [
          | true ↦ (err e, w')
          | false ↦ again (wait (backoff attempt) w')
        ]
      ]

  unfoldable pub with_retry : Action W A
  unfolding retry_from
  with_retry = retry_from attempts 1
