-- ===== src/Auth/Sessions.antt =====
-- src/modules/platform/auth/auth.constants.ts and interfaces/auth-session.types.ts: the payloads kept in
-- Redis, the keys that they are kept under, and the defaults of the configuration.
use nestjs_boilerplate.Base.{ℕ, ◌++◌, Text, codes}

-- The payload of a session, by its `type`; `other` is any other JSON value.
pub data Session : Type 0 where
  email_verify : (email : Text) (user_id : ℕ) (otp : Text) → Session
  email_login : (email : Text) (user_id : ℕ) (otp : Text) → Session
  phone_register : (phone : Text) (hashed_password : Text) (otp : Text) → Session
  phone_login : (phone : Text) (user_id : ℕ) (otp : Text) → Session
  other : Session

-- AUTH_CONSTANTS
abbrev pub bcrypt_salt_rounds : ℕ
bcrypt_salt_rounds = 12

abbrev pub forgot_password_requests_limit : ℕ
forgot_password_requests_limit = 3

abbrev pub forgot_password_window_seconds : ℕ
forgot_password_window_seconds = 60

-- AUTH_CONFIG_KEYS, and the other keys that the service reads.
pub data ConfigKey : Type 0 where
  email_verify_session_ttl_seconds email_login_session_ttl_seconds : ConfigKey
  phone_session_ttl_seconds otp_max_attempts : ConfigKey
  resend_rate_limit_max resend_rate_limit_window_seconds : ConfigKey
  phone_rate_limit_max phone_rate_limit_window_seconds : ConfigKey
  debug_return_otp node_env redis_ttl : ConfigKey
  jwt_secret jwt_expiration jwt_refresh_expiration : ConfigKey
  google_client_id apple_bundle_id : ConfigKey

-- AUTH_OTP_DEFAULTS, at the keys that have a default.
abbrev pub otp_default : ConfigKey → ℕ
otp_default email_verify_session_ttl_seconds = 900
otp_default email_login_session_ttl_seconds = 300
otp_default phone_session_ttl_seconds = 180
otp_default otp_max_attempts = 5
otp_default resend_rate_limit_max = 5
otp_default resend_rate_limit_window_seconds = 60
otp_default phone_rate_limit_max = 3
otp_default phone_rate_limit_window_seconds = 60
otp_default _ = 0

-- AUTH_REDIS_KEYS, and the keys that the service builds itself.
abbrev pub email_verify_session : Text → Text
email_verify_session token = codes "email_verify:" ++ token

abbrev pub email_login_session : Text → Text
email_login_session token = codes "email_login:" ++ token

abbrev pub phone_session : Text → Text
phone_session token = codes "phone_session:" ++ token

abbrev pub attempts : Text → Text
attempts session_key = session_key ++ codes ":attempts"

abbrev pub email_verify_resend_limit : Text → Text
email_verify_resend_limit email = codes "limit:email_verify_otp:" ++ email

abbrev pub email_login_limit : Text → Text
email_login_limit email = codes "limit:email_login_otp:" ++ email

abbrev pub phone_otp_limit : Text → Text
phone_otp_limit phone = codes "limit:phone_otp:" ++ phone

abbrev pub forgot_limit : Text → Text
forgot_limit email = codes "limit:forgot:" ++ email

abbrev pub reset_password_key : Text → Text
reset_password_key email = codes "reset_pass:" ++ email
