-- ===== src/Auth/EmailOtp.antt =====
-- src/modules/platform/auth/auth.service.ts: email verification and the email login by one-time codes.
use nestjs_boilerplate.Base.{
  ℕ, ◌==◌, true, false, Option, none, some, Text, if◌then◌else◌, bad_request, internal_server_error,
  pure, throw, throw_if, or_throw, gets, try_catch, ◌>>=◌, ◌>>◌,
}
use nestjs_boilerplate.Shared.Redis
use nestjs_boilerplate.Shared.Users
use nestjs_boilerplate.Shared.Users.{User, truthy}
use nestjs_boilerplate.Auth.Normalize.{normalize_email}
use nestjs_boilerplate.Auth.Sessions.{
  Session, email_verify_session, email_login_session, email_verify_session_ttl_seconds,
  email_login_session_ttl_seconds,
}
use nestjs_boilerplate.Auth.Services.{
  Services, Method, redis, redis_set, users_set, random_uuid, otp_code, enqueue, verify_email, otp,
  config_number, should_echo_otp,
}
use nestjs_boilerplate.Auth.Limits.{
  read_session, assert_otp_match, assert_resend_rate_limit, assert_email_login_rate_limit,
}
use nestjs_boilerplate.Auth.Tokens.{AuthResponse, issue_auth_response}
use nestjs_boilerplate.Auth.Accounts.{check_credentials}

pub record OtpSession : Type 0 where
  pub session_token : Text
  pub expires_in : ℕ
  pub otp : Option Text

-- `session.type !== '…'`: the fields of a session of the expected kind.
abbrev pub as_email_verify : Session → Option (ℕ × Text)
as_email_verify (Session.email_verify email user_id code) = some (user_id, code)
as_email_verify _ = none

abbrev pub as_email_login : Session → Option (ℕ × Text)
as_email_login (Session.email_login email user_id code) = some (user_id, code)
as_email_login _ = none

module _ (s : Services) where
  -- A code that is given and not empty is echoed where the configuration says so.
  unfoldable pub to_otp_session : Text → ℕ → Option Text → OtpSession
  unfolding truthy should_echo_otp
  to_otp_session session_token expires_in code = record {
    session_token = session_token;
    expires_in = expires_in;
    otp = if should_echo_otp s then truthy code else none;
  }

  -- Behind the check of the session's kind: the code is compared, and the session is used up.
  -- All four `verify…` methods have these lines.
  unfoldable pub consume_session : Text → Text → Text → Method s (Unit {0})
  unfolding Redis.del
  consume_session key submitted expected = do
    assert_otp_match s key submitted expected
    deleted ← redis s (Redis.del s.redis key)
    throw_if (deleted == 0) (bad_request "Session already used")

  unfoldable pub issue_email_verification_otp : ℕ → Text → Method s OtpSession
  unfolding Redis.set_with_expiry_seconds to_otp_session
  issue_email_verification_otp user_id email = do
    code ← otp_code s
    session_token ← random_uuid s
    let ttl = config_number s email_verify_session_ttl_seconds
    redis_set s (
        Redis.set_with_expiry_seconds s.redis (email_verify_session session_token)
          (s.stringify (Session.email_verify email user_id code)) ttl)
    try_catch (enqueue s (verify_email email code)) (λ _. pure tt)
    pure (to_otp_session session_token ttl (some code))

  -- verifyEmail
  unfoldable pub verify_email_session : Text → Text → Method s AuthResponse
  unfolding Users.find_by_id Users.mark_email_verified consume_session
  verify_email_session session_token submitted = do
    let key = email_verify_session session_token
    session ← or_throw (← read_session s key) (bad_request "Invalid or expired session")
    (user_id, expected) ← or_throw (as_email_verify session) (bad_request "Invalid session type")
    consume_session key submitted expected
    found ← gets (λ w. Users.find_by_id s.users user_id w.db)
    user ← or_throw found (bad_request "User not found")
    users_set s (λ moment. Users.mark_email_verified s.users moment user.id)
    issue_auth_response s user

  -- A missing or verified account gets `null`.
  abbrev pub resend : Option User → Text → Method s (Option OtpSession)
  resend none email = pure none
  resend (some user) email = elim user.email_verified [
    | true ↦ pure none
    | false ↦ issue_email_verification_otp user.id email >>= λ session. pure (some session)
  ]

  unfoldable pub resend_email_verification : Text → Method s (Option OtpSession)
  unfolding Users.find_by_email issue_email_verification_otp
  resend_email_verification raw_email = do
    let email = normalize_email s.wide_lower raw_email
    assert_resend_rate_limit s email
    found ← gets (λ w. Users.find_by_email s.users email w.db)
    resend found email

  -- `loginEmail` behind the checks: the code is sent, or the session is withdrawn.
  unfoldable pub issue_email_login_otp : User → Text → Method s OtpSession
  unfolding Redis.set_with_expiry_seconds Redis.del to_otp_session
  issue_email_login_otp user email = do
    assert_email_login_rate_limit s email
    code ← otp_code s
    session_token ← random_uuid s
    let ttl = config_number s email_login_session_ttl_seconds
    let key = email_login_session session_token
    redis_set s (
        Redis.set_with_expiry_seconds s.redis key
          (s.stringify (Session.email_login email user.id code)) ttl)
    try_catch (enqueue s (otp email code)) λ _. do
      redis s (Redis.del s.redis key)
      throw (internal_server_error "Could not deliver verification code")
    pure (to_otp_session session_token ttl (some code))

  unfoldable pub login_email : Text → Text → Method s OtpSession
  unfolding Users.find_by_email check_credentials issue_email_login_otp
  login_email raw_email password = do
    let email = normalize_email s.wide_lower raw_email
    found ← gets (λ w. Users.find_by_email s.users email w.db)
    user ← check_credentials s found password
    issue_email_login_otp user email

  unfoldable pub verify_email_login : Text → Text → Method s AuthResponse
  unfolding Users.find_by_id consume_session
  verify_email_login session_token submitted = do
    let key = email_login_session session_token
    session ← or_throw (← read_session s key) (bad_request "Invalid or expired session")
    (user_id, expected) ← or_throw (as_email_login session) (bad_request "Invalid session type")
    consume_session key submitted expected
    found ← gets (λ w. Users.find_by_id s.users user_id w.db)
    user ← or_throw found (bad_request "User not found")
    issue_auth_response s user
