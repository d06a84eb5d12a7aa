-- ===== src/Auth/Limits/RateLimit.antt =====
-- The rate limits of src/modules/platform/auth/auth.service.ts: `assertRateLimit` and
-- `ensureForgotPasswordRateLimit`, over the requests of one window.
use nestjs_boilerplate.Base.{
  ℕ, zero, suc, ◌+◌, ◌-◌, ◌<◌, ◌≡◌, refl, ◌==◌, ltb, Text, text_eq_refl, if◌then◌else◌, Result, ok,
  err, bad_request, arith, some, ◌∙◌,
}
use Prim.Native.Nat.{min}
use nestjs_boilerplate.Shared.Redis.{Laws}
use nestjs_boilerplate.Auth.Services.{Services, World}
use nestjs_boilerplate.Auth.Limits.{assert_rate_limit, ensure_forgot_password_rate_limit}
use nestjs_boilerplate.Auth.Sessions.{
  forgot_limit, forgot_password_requests_limit, forgot_password_window_seconds,
}

abbrev pub passed : {A : Type 0} → Result A → ℕ
passed (ok _) = 1
passed (err _) = 0

module _ (s : Services) (laws : Laws s.redis) (key : Text) (max window : ℕ) where
  -- One request: it passes up to the limit, and the counter grows in either case.
  pub assert_rate_limit_lem :
      (w : World s)
      → 0 < window
      → let (r, w') = assert_rate_limit s key max window w in
        (r ≡ (
          if ltb max (s.redis.counter key w.store + 1)
          then err (bad_request "Too many requests. Please try again later.")
          else ok tt))
        × (s.redis.counter key w'.store ≡ s.redis.counter key w.store + 1)
        × (w'.db ≡ w.db)
        × (w'.moment ≡ w.moment)
  unfolding assert_rate_limit
  assert_rate_limit_lem w positive =
      let reply = laws.incr_reply key w.store in
      let same = text_eq_refl key in
      let grown = laws.counter-incr key key w.store in
      let kept = laws.counter-expire key key window (s.redis.incr key w.store).1 positive in
      (ground arith, ground arith, ground arith, ground arith)

  -- The time to live: set by the first request of a window, and kept by the later ones.
  ttl_after :
      (w : World s)
      → 0 < window
      → s.redis.ttl key (assert_rate_limit s key max window w).1.store
        ≡ (if s.redis.counter key w.store == 0 then some window else s.redis.ttl key w.store)
  unfolding assert_rate_limit
  ttl_after w positive =
      let reply = laws.incr_reply key w.store in
      let same = text_eq_refl key in
      let grown = laws.counter-incr key key w.store in
      let kept = laws.ttl-incr key key w.store in
      let set = laws.ttl-expire key key window (s.redis.incr key w.store).1 in ground (arith, set)

  -- `n` requests in a row: how many pass, and the state behind them.
  abbrev pub burst : ℕ → World s → ℕ × World s
  burst zero w = (0, w)
  burst (suc n) w =
      let (r, w') = assert_rate_limit s key max window w in
      let (more, w'') = burst n w' in (passed r + more, w'')

  burst-count :
      (n : ℕ) (w : World s)
      → 0 < window
      → ((burst n w).0 ≡ min n (max - s.redis.counter key w.store))
        × (s.redis.counter key (burst n w).1.store ≡ s.redis.counter key w.store + n)
  burst-count zero w positive = (omega arith, omega arith)
  burst-count (suc n) w positive =
      let one = assert_rate_limit_lem w positive in
      let rest = burst-count n (assert_rate_limit s key max window w).1 positive in
      (ground (arith, one, rest), ground (arith, one, rest))

  burst-ttl :
      (n : ℕ) (w : World s)
      → 0 < window
      → 0 < s.redis.counter key w.store
      → s.redis.ttl key (burst n w).1.store ≡ s.redis.ttl key w.store
  burst-ttl zero w positive counted = refl
  burst-ttl (suc n) w positive counted =
      let one = assert_rate_limit_lem w positive in
      let next = (assert_rate_limit s key max window w).1 in
      burst-ttl n next positive (omega (arith, one.1)) ∙ ttl_after w positive ∙ ground arith

  -- With a positive window, and from a key with no counter, exactly the first `max` of `n` requests
  -- of a window pass; the counter then stands at `n` and, after one request or more, expires with
  -- the window.
  pub assert_rate_limit-burst :
      (n : ℕ) (w : World s)
      → 0 < window
      → s.redis.counter key w.store ≡ 0
      → ((burst n w).0 ≡ min n max)
        × (s.redis.counter key (burst n w).1.store ≡ n)
        × (s.redis.ttl key (burst n w).1.store
            ≡ (if n == 0 then s.redis.ttl key w.store else some window))
  assert_rate_limit-burst zero w positive fresh = (omega arith, omega arith, refl)
  assert_rate_limit-burst (suc n) w positive fresh =
      let counts = burst-count (suc n) w positive in
      let one = assert_rate_limit_lem w positive in
      let next = (assert_rate_limit s key max window w).1 in
      (
        counts.0 ∙ rw fresh (omega arith),
        counts.1 ∙ rw fresh (omega arith),
        burst-ttl n next positive (omega (arith, one.1)) ∙ ttl_after w positive ∙ ground arith,
      )

-- The limit on password resets is a rate limit of three requests in a minute.
pub ensure_forgot_password_rate_limit_lem :
    (s : Services) (email : Text) (w : World s)
    → ensure_forgot_password_rate_limit s email w
      ≡ assert_rate_limit s
          (forgot_limit email)
          forgot_password_requests_limit
          forgot_password_window_seconds
          w
unfolding ensure_forgot_password_rate_limit assert_rate_limit
ensure_forgot_password_rate_limit_lem s email w = refl
