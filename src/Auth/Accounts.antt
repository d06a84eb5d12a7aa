-- ===== src/Auth/Accounts.antt =====
-- src/modules/platform/auth/auth.service.ts: password accounts, social login, password reset and the
-- authenticated actions.
pub mod Login
pub mod Reset
pub mod Enumeration
use nestjs_boilerplate.Base.{
  ℕ, ◌+◌, Bool, true, false, not, ◌||◌, Option, none, some, Text, Exception, unauthorized, failure,
  bad_request, conflict, internal_server_error, Result, ok, err, Action, pure, throw, throw_if,
  or_throw, or_else, gets, modify, when, try_catch, ◌>>=◌, ◌>>◌,
}
use nestjs_boilerplate.Shared.Redis
use nestjs_boilerplate.Shared.Users
use nestjs_boilerplate.Shared.Users.{
  User, NewUser, UpsertOAuthUser, AuthProvider, google, apple, truthy,
}
use nestjs_boilerplate.Shared.Otp.{generate_otp_code}
use nestjs_boilerplate.Auth.Normalize.{normalize_email}
use nestjs_boilerplate.Auth.Sessions.{
  bcrypt_salt_rounds, reset_password_key, redis_ttl, google_client_id, apple_bundle_id, attempts,
}
use nestjs_boilerplate.Auth.Services.{
  Services, World, Method, ConfigValue, string, IdPayload, MailJob, now, redis, redis_set,
  users_set, users_insert, bcrypt_hash, get_or_throw_number, otp_code, random_uuid, enqueue,
  password_reset,
}
use nestjs_boilerplate.Auth.Limits.{
  constant_time_equal, ensure_forgot_password_rate_limit, register_reset_failure,
}
use nestjs_boilerplate.Auth.Tokens.{
  AuthResponse, to_safe_user, generate_tokens, update_refresh_token, issue_auth_response,
}

pub record RegisterInput : Type 0 where
  pub email : Text
  pub password : Text
  pub first_name : Option Text
  pub last_name : Option Text

pub record LoginInput : Type 0 where
  pub email : Text
  pub password : Text

-- A configured string that is not empty.
abbrev configured : ConfigValue → Option Text
configured (string v) = truthy (some v)
configured _ = none

-- `null` and `undefined` both stand for a missing payload or a missing address.
abbrev email_of : Option IdPayload → Option (IdPayload × Text)
email_of none = none
email_of (some p) = elim (truthy p.email) [ none ↦ none | some email ↦ some (p, email) ]

abbrev pub is_some : {A : Type 0} → Option A → Bool
is_some none = false
is_some (some _) = true

-- `!storedCode || !constantTimeEqual(storedCode, code)`, negated
abbrev pub matches : Option Text → Text → Bool
matches none code = false
matches (some stored) code = constant_time_equal stored code

-- A value that may be undefined, which is not null.
abbrev where_given : Option Text → Option (Option Text)
where_given none = none
where_given (some v) = some (some v)

module _ (s : Services) where
  -- Spends the time of a comparison; the outcome is dropped.
  unfoldable pub dummy_password_compare : Text → Method s (Unit {0})
  unfolding truthy
  dummy_password_compare password = do
    cached ← gets (λ w. truthy w.dummy_password_hash)
    or_else cached do
      uuid ← random_uuid s
      hashed ← bcrypt_hash s uuid bcrypt_salt_rounds
      modify (λ w. record w { dummy_password_hash = some hashed })
      pure hashed
    pure tt

  unfoldable pub register : RegisterInput → Method s AuthResponse
  unfolding Users.find_by_email Users.create generate_tokens update_refresh_token
  register dto = do
    let email = normalize_email s.wide_lower dto.email
    existing ← gets (λ w. Users.find_by_email s.users email w.db)
    throw_if (is_some existing) (conflict "Email already in use")
    hashed ← bcrypt_hash s dto.password bcrypt_salt_rounds
    created ← users_insert s (λ _. Users.create s.users (record {
      email = some email;
      phone = none;
      password = some hashed;
      first_name = dto.first_name;
      last_name = dto.last_name;
      is_active = true;
      provider = none;
      provider_id = none;
      picture = none;
      email_verified = false;
      phone_verified = false;
    }))
    user ← or_throw created (internal_server_error "Failed to create user")
    tokens ← generate_tokens s user.id user.email
    update_refresh_token s user.id tokens.refresh_token
    pure (record {
      access_token = tokens.access_token;
      refresh_token = tokens.refresh_token;
      user = to_safe_user user;
    })

  -- The checks of `login`, of `loginEmail` and of `loginPhone`, on the account that was found.
  unfoldable pub check_credentials : Option User → Text → Method s User
  unfolding dummy_password_compare truthy
  check_credentials found password = do
    user ←
        or_else found
          (dummy_password_compare password >> throw (unauthorized "Invalid credentials"))
    throw_if (not user.is_active) (unauthorized "User is not active")
    stored ← or_throw (truthy user.password) (unauthorized "This account uses social login")
    throw_if (not (s.compare password stored)) (unauthorized "Invalid credentials")
    pure user

  unfoldable pub login : LoginInput → Method s AuthResponse
  unfolding Users.find_by_email check_credentials generate_tokens update_refresh_token
  login dto = do
    let email = normalize_email s.wide_lower dto.email
    found ← gets (λ w. Users.find_by_email s.users email w.db)
    user ← check_credentials found dto.password
    tokens ← generate_tokens s user.id user.email
    update_refresh_token s user.id tokens.refresh_token
    pure (record {
      access_token = tokens.access_token;
      refresh_token = tokens.refresh_token;
      user = to_safe_user user;
    })

  unfoldable pub oauth_login : UpsertOAuthUser → Method s AuthResponse
  unfolding Users.upsert_oauth_user generate_tokens update_refresh_token
  oauth_login d = do
    let normalized = record d { email = normalize_email s.wide_lower d.email }
    upserted ← users_insert s (λ moment. Users.upsert_oauth_user s.users moment normalized)
    user ← or_throw upserted (internal_server_error "Failed to create user")
    tokens ← generate_tokens s user.id user.email
    update_refresh_token s user.id tokens.refresh_token
    pure (record {
      access_token = tokens.access_token;
      refresh_token = tokens.refresh_token;
      user = to_safe_user user;
    })

  unfoldable pub google_login : Text → Method s AuthResponse
  unfolding oauth_login truthy
  google_login id_token = do
    client_id ←
        or_throw (configured (s.config google_client_id))
          (bad_request "Google login is not configured")
    client ← gets (λ w. w.google_client)
    when (not (is_some client)) (modify (λ w. record w { google_client = some client_id }))
    moment ← now s
    payload ← λ w. (s.verify_google id_token client_id moment, w)
    (p, email) ← or_throw (email_of payload) (unauthorized "Invalid Token")
    oauth_login (record {
      email = email;
      first_name = p.given_name;
      last_name = p.family_name;
      picture = where_given p.picture;
      provider = google;
      provider_id = p.sub;
    })

  unfoldable pub apple_login : Text → Option Text → Option Text → Method s AuthResponse
  unfolding oauth_login truthy
  apple_login id_token first_name last_name = do
    bundle_id ←
        or_throw (configured (s.config apple_bundle_id))
          (bad_request "Apple login is not configured")
    moment ← now s
    payload ← λ w. (s.verify_apple id_token bundle_id moment, w)
    (p, email) ← or_throw (email_of payload) (unauthorized "Invalid Token")
    oauth_login (record {
      email = email;
      first_name = first_name;
      last_name = last_name;
      picture = some none;
      provider = apple;
      provider_id = p.sub;
    })

  -- `forgotPassword` behind the lookup: an unknown account gets no code. An error of the mail
  -- queue is logged and dropped.
  unfoldable pub send_reset_code : Option User → Text → Method s (Unit {0})
  unfolding Redis.set_with_expiry_seconds
  send_reset_code none email = pure tt
  send_reset_code (some user) email = do
    code ← otp_code s
    ttl ← get_or_throw_number s redis_ttl
    redis_set s (Redis.set_with_expiry_seconds s.redis (reset_password_key email) code ttl)
    try_catch (enqueue s (password_reset email code)) (λ _. pure tt)

  unfoldable pub forgot_password : Text → Method s (Unit {0})
  unfolding Users.find_by_email
  forgot_password raw_email = do
    let email = normalize_email s.wide_lower raw_email
    ensure_forgot_password_rate_limit s email
    found ← gets (λ w. Users.find_by_email s.users email w.db)
    send_reset_code found email

  unfoldable pub reset_password : Text → Text → Text → Method s (Unit {0})
  unfolding Redis.get Redis.del Users.find_by_email Users.update_password Users.update_refresh_token
      truthy
  reset_password raw_email code new_password = do
    let email = normalize_email s.wide_lower raw_email
    let key = reset_password_key email
    stored ← gets (λ w. truthy (Redis.get s.redis key w.store))
    when (not (matches stored code))
        do register_reset_failure s key; throw (bad_request "Invalid or expired verification code")
    found ← gets (λ w. Users.find_by_email s.users email w.db)
    user ← or_throw found (bad_request "Invalid or expired verification code")
    hashed ← bcrypt_hash s new_password bcrypt_salt_rounds
    users_set s (λ moment. Users.update_password s.users moment email hashed)
    users_set s (λ moment. Users.update_refresh_token s.users moment user.id none)
    redis s (Redis.del s.redis key)
    redis s (Redis.del s.redis (attempts key))
    pure tt

  unfoldable pub change_password : ℕ → Text → Text → Method s (Unit {0})
  unfolding Users.find_by_id Users.update_password_by_id truthy
  change_password user_id current_password new_password = do
    found ← gets (λ w. Users.find_by_id s.users user_id w.db)
    user ← or_throw found (unauthorized "User not found")
    stored ← or_throw (truthy user.password) (bad_request "This account uses social login")
    throw_if (not (s.compare current_password stored)) (bad_request "Current password is incorrect")
    hashed ← bcrypt_hash s new_password bcrypt_salt_rounds
    users_set s (λ moment. Users.update_password_by_id s.users moment user_id hashed)

  unfoldable pub logout : ℕ → Method s (Unit {0})
  unfolding Users.update_refresh_token
  logout user_id = users_set s (λ moment. Users.update_refresh_token s.users moment user_id none)
