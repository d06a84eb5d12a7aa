-- ===== src/Auth/PhoneOtp.antt =====
-- src/modules/platform/auth/auth.service.ts: registration and login by phone.
use nestjs_boilerplate.Base.{
  ℕ, true, false, Option, none, some, ◌++◌, Text, codes, bad_request, conflict,
  internal_server_error, pure, throw, throw_if, or_throw, gets, try_catch, ◌>>=◌, ◌>>◌,
}
use nestjs_boilerplate.Shared.Redis
use nestjs_boilerplate.Shared.Users
use nestjs_boilerplate.Shared.Users.{User, NewUser}
use nestjs_boilerplate.Auth.Normalize.{normalize_phone}
use nestjs_boilerplate.Auth.Sessions.{
  Session, phone_session, phone_session_ttl_seconds, bcrypt_salt_rounds,
}
use nestjs_boilerplate.Auth.Services.{
  Services, Method, redis_set, users_insert, bcrypt_hash, random_uuid, otp_code, send_sms,
  config_number,
}
use nestjs_boilerplate.Auth.Limits.{read_session, assert_phone_otp_rate_limit}
use nestjs_boilerplate.Auth.Tokens.{AuthResponse, issue_auth_response}
use nestjs_boilerplate.Auth.Accounts.{check_credentials, is_some}
use nestjs_boilerplate.Auth.EmailOtp.{OtpSession, to_otp_session, consume_session}

-- The phone and the password hash, the code; or the user and the code.
abbrev pub as_phone_register : Session → Option ((Text × Text) × Text)
as_phone_register (Session.phone_register phone hashed code) = some ((phone, hashed), code)
as_phone_register _ = none

abbrev pub as_phone_login : Session → Option (ℕ × Text)
as_phone_login (Session.phone_login phone user_id code) = some (user_id, code)
as_phone_login _ = none

module _ (s : Services) where
  unfoldable pub send_phone_otp : Text → Method s Text
  send_phone_otp phone = do
    assert_phone_otp_rate_limit s phone
    code ← otp_code s
    try_catch (send_sms s phone (codes "Your verification code is " ++ code))
        (λ _. throw (internal_server_error "Could not deliver verification code"))
    pure code

  unfoldable pub register_phone : Text → Text → Method s OtpSession
  unfolding Users.find_by_phone Redis.set_with_expiry_seconds send_phone_otp to_otp_session
  register_phone raw_phone password = do
    phone ← λ w. (normalize_phone raw_phone, w)
    existing ← gets (λ w. Users.find_by_phone s.users phone w.db)
    throw_if (is_some existing) (conflict "Phone already in use")
    hashed ← bcrypt_hash s password bcrypt_salt_rounds
    code ← send_phone_otp phone
    session_token ← random_uuid s
    let ttl = config_number s phone_session_ttl_seconds
    redis_set s (
        Redis.set_with_expiry_seconds s.redis (phone_session session_token)
          (s.stringify (Session.phone_register phone hashed code)) ttl)
    pure (to_otp_session s session_token ttl none)

  unfoldable pub verify_phone_register : Text → Text → Method s AuthResponse
  unfolding Users.create consume_session
  verify_phone_register session_token submitted = do
    let key = phone_session session_token
    session ← or_throw (← read_session s key) (bad_request "Invalid or expired session")
    ((phone, hashed), expected) ←
        or_throw (as_phone_register session) (bad_request "Invalid session type")
    consume_session s key submitted expected
    created ← users_insert s (λ _. Users.create s.users (record {
      email = none;
      phone = some phone;
      password = some hashed;
      first_name = none;
      last_name = none;
      is_active = true;
      provider = none;
      provider_id = none;
      picture = none;
      email_verified = false;
      phone_verified = true;
    }))
    user ← or_throw created (internal_server_error "Failed to create user")
    issue_auth_response s user

  unfoldable pub login_phone : Text → Text → Method s OtpSession
  unfolding Users.find_by_phone Redis.set_with_expiry_seconds check_credentials send_phone_otp
      to_otp_session
  login_phone raw_phone password = do
    phone ← λ w. (normalize_phone raw_phone, w)
    found ← gets (λ w. Users.find_by_phone s.users phone w.db)
    user ← check_credentials s found password
    code ← send_phone_otp phone
    session_token ← random_uuid s
    let ttl = config_number s phone_session_ttl_seconds
    redis_set s (
        Redis.set_with_expiry_seconds s.redis (phone_session session_token)
          (s.stringify (Session.phone_login phone user.id code)) ttl)
    pure (to_otp_session s session_token ttl none)

  unfoldable pub verify_phone_login : Text → Text → Method s AuthResponse
  unfolding Users.find_by_id consume_session
  verify_phone_login session_token submitted = do
    let key = phone_session session_token
    session ← or_throw (← read_session s key) (bad_request "Invalid or expired session")
    (user_id, expected) ← or_throw (as_phone_login session) (bad_request "Invalid session type")
    consume_session s key submitted expected
    found ← gets (λ w. Users.find_by_id s.users user_id w.db)
    user ← or_throw found (bad_request "User not found")
    issue_auth_response s user
