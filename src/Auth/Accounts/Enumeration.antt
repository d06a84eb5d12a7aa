-- ===== src/Auth/Accounts/Enumeration.antt =====
-- What the endpoints of src/modules/platform/auth/auth.service.ts reveal of the accounts that exist.
use nestjs_boilerplate.Base.{
  ℕ, ◌+◌, ◌<◌, ◌≡◌, refl, ltb, Bool, false, not, Option, none, some, Text, Result, ok, err,
  bad_request, arith, if◌then◌else◌, Bool-cases, inl, inr,
}
use nestjs_boilerplate.Shared.Redis.{Laws}
use nestjs_boilerplate.Shared.Users.{User, find_by_email}
use nestjs_boilerplate.Shared.Otp.{generate_otp_code, otp_max, pad_start, to_string}
use nestjs_boilerplate.Auth.Normalize.{normalize_email}
use nestjs_boilerplate.Auth.Sessions.{
  redis_ttl, forgot_limit, forgot_password_requests_limit, forgot_password_window_seconds,
  email_verify_resend_limit, resend_rate_limit_max, resend_rate_limit_window_seconds,
}
use nestjs_boilerplate.Auth.Services.{Services, World, config_number, number, verify_email}
use nestjs_boilerplate.Auth.Limits.{assert_rate_limit, assert_resend_rate_limit}
use nestjs_boilerplate.Auth.Limits.Attempts.{config_number_positive}
use nestjs_boilerplate.Auth.Limits.RateLimit.{
  assert_rate_limit_lem, ensure_forgot_password_rate_limit_lem,
}
use nestjs_boilerplate.Auth.Accounts.{is_some, forgot_password, send_reset_code}
use nestjs_boilerplate.Auth.EmailOtp.{
  OtpSession, resend_email_verification, issue_email_verification_otp, resend,
}

abbrev pub is_unverified : Option User → Bool
is_unverified none = false
is_unverified (some u) = not u.email_verified

-- Whether an answer carries a session; `none` is an error.
abbrev pub carries_session : Result (Option OtpSession) → Option Bool
carries_session (ok o) = some (is_some o)
carries_session (err e) = none

module _ (s : Services) (laws : Laws s.redis) where
  abbrev email_of : Text → Text
  email_of raw = normalize_email s.wide_lower raw

  send_reset_code_ok :
      (ttl : ℕ) (found : Option User) (email : Text) (w : World s)
      → s.config redis_ttl ≡ number ttl
      → ((send_reset_code s found email w).0 ≡ ok tt)
        × ((send_reset_code s found email w).1.db ≡ w.db)
  unfolding send_reset_code generate_otp_code
  send_reset_code_ok ttl none email w set = (refl, refl)
  send_reset_code_ok ttl (some u) email w set = (ground (arith, set), ground (arith, set))

  -- Where the lifetime of codes is configured, the answer of `forgotPassword` depends on the number
  -- of requests for the address alone, so it does not say whether an account has the address; and
  -- no account is changed.
  pub forgot_password_uniform :
      (ttl : ℕ) (raw_email : Text) (w : World s)
      → s.config redis_ttl ≡ number ttl
      → ((forgot_password s raw_email w).0 ≡ (
          if ltb forgot_password_requests_limit
            (s.redis.counter (forgot_limit (email_of raw_email)) w.store + 1)
          then err (bad_request "Too many requests. Please try again later.")
          else ok tt))
        × ((forgot_password s raw_email w).1.db ≡ w.db)
  unfolding forgot_password
  forgot_password_uniform ttl raw_email w set =
      let email = email_of raw_email in
      let key = forgot_limit email in
      let same = ensure_forgot_password_rate_limit_lem s email w in
      let limit =
        assert_rate_limit_lem s laws key forgot_password_requests_limit
          forgot_password_window_seconds w (omega arith) in
      let v =
        (assert_rate_limit s key forgot_password_requests_limit forgot_password_window_seconds
          w).1 in
      let sent = send_reset_code_ok ttl (find_by_email s.users email v.db) email v set in
      (ground (arith, same, limit, sent), ground (arith, same, limit, sent))

  resend_lem :
      (found : Option User) (email : Text) (w : World s)
      → carries_session (resend s found email w).0 ≡ some (is_unverified found)
  unfolding issue_email_verification_otp generate_otp_code
  resend_lem none email w = refl
  resend_lem (some u) email w = elim (Bool-cases u.email_verified) [
    | inl seen ↦ ground (arith, seen)
    | inr unseen ↦
        elim (Bool-cases (
          s.enqueue_accepts
            (verify_email email (pad_start 6 48 (to_string (s.random_int (otp_max 6) w.moment))))
            (w.moment + 1 + 1))) [
              | inl yes' ↦ ground (arith, unseen, yes')
              | inr no' ↦ ground (arith, unseen, no')
            ]
  ]

  -- Within the limit, `resendEmailVerification` answers with a session exactly if an account that
  -- is not verified has the address, and with `null` otherwise: the answer tells the two apart.
  pub resend_email_verification_reveals :
      (raw_email : Text) (w : World s)
      → s.redis.counter (email_verify_resend_limit (email_of raw_email)) w.store
        < config_number s resend_rate_limit_max
      → carries_session (resend_email_verification s raw_email w).0
        ≡ some (is_unverified (find_by_email s.users (email_of raw_email) w.db))
  unfolding resend_email_verification assert_resend_rate_limit
  resend_email_verification_reveals raw_email w few =
      let email = email_of raw_email in
      let key = email_verify_resend_limit email in
      let max = config_number s resend_rate_limit_max in
      let window = config_number s resend_rate_limit_window_seconds in
      let limit =
        assert_rate_limit_lem s laws key max window w
          (config_number_positive s resend_rate_limit_window_seconds (omega arith)) in
      let v = (assert_rate_limit s key max window w).1 in
      let sent = resend_lem (find_by_email s.users email v.db) email v in
      ground (arith, limit, sent)
