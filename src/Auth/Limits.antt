-- ===== src/Auth/Limits.antt =====
-- src/modules/platform/auth/auth.service.ts: sessions in Redis, the comparison of one-time codes, the
-- counters of failed attempts and the rate limits.
pub mod Utf8
pub mod RateLimit
pub mod Attempts
pub mod BruteForce
use nestjs_boilerplate.Base.{
  ℕ, ◌+◌, ◌==◌, ltb, leb, Bool, true, false, Option, none, some, List, [], ◌∷◌, Text, length,
  text_eq, if◌then◌else◌, Exception, bad_request, Result, ok, err, Action, pure, throw, throw_if,
  gets, modify, when, ◌>>=◌, ◌>>◌,
}
use nestjs_boilerplate.Shared.Redis
use nestjs_boilerplate.Auth.Sessions.{
  Session, ConfigKey, otp_default, otp_max_attempts, email_verify_session_ttl_seconds,
  resend_rate_limit_max, resend_rate_limit_window_seconds, phone_rate_limit_max,
  phone_rate_limit_window_seconds, attempts, email_verify_resend_limit, email_login_limit,
  phone_otp_limit, forgot_limit, forgot_password_requests_limit, forgot_password_window_seconds,
  redis_ttl,
}
use nestjs_boilerplate.Auth.Services.{
  Services, World, Method, redis, config_number, get_or_throw_number,
}
use Utf8.{utf8}

-- Equality of the UTF-8 encodings, which `timingSafeEqual` compares once the lengths agree.
unfoldable pub constant_time_equal : Text → Text → Bool
constant_time_equal a b =
    if length (utf8 a) == length (utf8 b) then text_eq (utf8 a) (utf8 b) else false

module _ (s : Services) where
  abbrev pub parsed : Option Text → Option Session
  parsed none = none
  parsed (some []) = none
  parsed (some (c ∷ raw)) = s.parse (c ∷ raw)

  -- `null` for a missing key, an empty value and a value that is no JSON
  unfoldable pub read_session : Text → Method s (Option Session)
  unfolding Redis.get
  read_session key = gets (λ w. parsed (Redis.get s.redis key w.store))

  unfoldable pub max_session_ttl_seconds : ℕ
  max_session_ttl_seconds = config_number s email_verify_session_ttl_seconds

  -- `assertOtpMatch` behind the comparison: the failure is counted, and enough of them burn the
  -- session.
  unfoldable pub otp_mismatch : Text → Method s (Unit {0})
  unfolding Redis.incr Redis.expire Redis.del max_session_ttl_seconds
  otp_mismatch session_key = do
    count ← redis s (Redis.incr s.redis (attempts session_key))
    when (count == 1)
        (redis s (Redis.expire s.redis (attempts session_key) max_session_ttl_seconds) >> pure tt)
    when (leb (config_number s otp_max_attempts) count) do
      redis s (Redis.del s.redis session_key)
      redis s (Redis.del s.redis (attempts session_key))
      throw (bad_request "Too many failed attempts")
    throw (bad_request "Invalid verification code")

  unfoldable pub assert_otp_match : Text → Text → Text → Method s (Unit {0})
  assert_otp_match session_key submitted expected w =
      elim (constant_time_equal submitted expected) [
        | true ↦ (ok tt, w)
        | false ↦ otp_mismatch session_key w
      ]

  -- registerResetFailure
  unfoldable pub register_reset_failure : Text → Method s (Unit {0})
  unfolding Redis.incr Redis.expire Redis.del
  register_reset_failure key = do
    count ← redis s (Redis.incr s.redis (attempts key))
    when (count == 1) do
      ttl ← get_or_throw_number s redis_ttl
      redis s (Redis.expire s.redis (attempts key) ttl)
      pure tt
    when (leb (config_number s otp_max_attempts) count)
        do redis s (Redis.del s.redis key); redis s (Redis.del s.redis (attempts key)); pure tt

  unfoldable pub assert_rate_limit : Text → ℕ → ℕ → Method s (Unit {0})
  unfolding Redis.incr Redis.expire
  assert_rate_limit key max window_seconds = do
    count ← redis s (Redis.incr s.redis key)
    when (count == 1) (redis s (Redis.expire s.redis key window_seconds) >> pure tt)
    throw_if (ltb max count) (bad_request "Too many requests. Please try again later.")

  unfoldable pub assert_resend_rate_limit : Text → Method s (Unit {0})
  assert_resend_rate_limit email =
      assert_rate_limit (email_verify_resend_limit email) (config_number s resend_rate_limit_max)
        (config_number s resend_rate_limit_window_seconds)

  unfoldable pub assert_email_login_rate_limit : Text → Method s (Unit {0})
  assert_email_login_rate_limit email =
      assert_rate_limit (email_login_limit email) (config_number s resend_rate_limit_max)
        (config_number s resend_rate_limit_window_seconds)

  unfoldable pub assert_phone_otp_rate_limit : Text → Method s (Unit {0})
  assert_phone_otp_rate_limit phone =
      assert_rate_limit (phone_otp_limit phone) (config_number s phone_rate_limit_max)
        (config_number s phone_rate_limit_window_seconds)

  -- ensureForgotPasswordRateLimit
  unfoldable pub ensure_forgot_password_rate_limit : Text → Method s (Unit {0})
  unfolding Redis.incr Redis.expire
  ensure_forgot_password_rate_limit email = do
    count ← redis s (Redis.incr s.redis (forgot_limit email))
    when (count == 1) (
        redis s (Redis.expire s.redis (forgot_limit email) forgot_password_window_seconds)
        >> pure tt)
    throw_if (ltb forgot_password_requests_limit count)
        (bad_request "Too many requests. Please try again later.")
