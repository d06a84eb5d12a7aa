-- ===== src/Auth/Tokens.antt =====
-- src/modules/platform/auth/auth.service.ts: access and refresh tokens.
pub mod Rotation
pub mod Replay
use nestjs_boilerplate.Base.{
  ℕ, ◌+◌, Bool, Option, none, some, Text, not, Exception, unauthorized, failure, Result, ok, err,
  Action, pure, throw, throw_if, or_throw, gets, try_catch, ◌>>=◌, ◌>>◌,
}
use nestjs_boilerplate.Shared.Users
use nestjs_boilerplate.Shared.Users.{User, truthy}
use nestjs_boilerplate.Auth.Sessions.{
  bcrypt_salt_rounds, jwt_secret, jwt_expiration, jwt_refresh_expiration,
}
use nestjs_boilerplate.Auth.Services.{
  Services, World, Method, JwtPayload, now, users_set, bcrypt_hash, get_or_throw,
}

pub record SafeUser : Type 0 where
  pub id : ℕ
  pub email : Option Text
  pub phone : Option Text
  pub first_name : Option Text
  pub last_name : Option Text
  pub is_active : Bool
  pub created_at : ℕ
  pub updated_at : ℕ

pub record RefreshResponse : Type 0 where
  pub access_token : Text
  pub refresh_token : Text

pub record AuthResponse : Type 0 where
  pub access_token : Text
  pub refresh_token : Text
  pub user : SafeUser

abbrev pub to_safe_user : User → SafeUser
to_safe_user u = record {
  id = u.id;
  email = u.email;
  phone = u.phone;
  first_name = u.first_name;
  last_name = u.last_name;
  is_active = u.is_active;
  created_at = u.created_at;
  updated_at = u.updated_at;
}

pub record SignOptions : Type 0 where
  pub expires_in : Text
  pub secret : Text

module _ (s : Services) where
  unfoldable pub get_access_token_sign_options : Method s SignOptions
  get_access_token_sign_options = do
    expires_in ← get_or_throw s jwt_expiration
    secret ← get_or_throw s jwt_secret
    pure (record { expires_in = expires_in; secret = secret })

  unfoldable pub get_refresh_token_sign_options : Method s SignOptions
  unfolding get_access_token_sign_options
  get_refresh_token_sign_options = do
    options ← get_access_token_sign_options
    expires_in ← get_or_throw s jwt_refresh_expiration
    pure (record options { expires_in = expires_in })

  -- Both tokens are signed in one `Promise.all`, so at one moment.
  unfoldable pub generate_tokens : ℕ → Option Text → Method s RefreshResponse
  unfolding get_access_token_sign_options get_refresh_token_sign_options
  generate_tokens user_id email = do
    let payload : JwtPayload = record { sub = user_id; email = email }
    access ← get_access_token_sign_options
    refresh ← get_refresh_token_sign_options
    moment ← now s
    pure (record {
      access_token = s.sign payload access.expires_in access.secret moment;
      refresh_token = s.sign payload refresh.expires_in refresh.secret moment;
    })

  unfoldable pub update_refresh_token : ℕ → Text → Method s (Unit {0})
  unfolding Users.update_refresh_token
  update_refresh_token user_id refresh_token = do
    hashed ← bcrypt_hash s refresh_token bcrypt_salt_rounds
    users_set s (λ moment. Users.update_refresh_token s.users moment user_id (some hashed))

  unfoldable pub issue_auth_response : User → Method s AuthResponse
  unfolding generate_tokens update_refresh_token
  issue_auth_response user = do
    tokens ← generate_tokens user.id user.email
    update_refresh_token user.id tokens.refresh_token
    pure (record {
      access_token = tokens.access_token;
      refresh_token = tokens.refresh_token;
      user = to_safe_user user;
    })

  -- The body of the `try` block of `refresh`.
  unfoldable pub refresh_attempt : Text → Method s RefreshResponse
  unfolding Users.find_by_id truthy generate_tokens update_refresh_token
  refresh_attempt refresh_token = do
    secret ← get_or_throw s jwt_secret
    moment ← now s
    payload ← or_throw (s.verify refresh_token secret moment) (failure "invalid token")
    found ← gets (λ w. Users.find_by_id s.users payload.sub w.db)
    user ← or_throw found (unauthorized "User not found")
    stored ← or_throw (truthy user.refresh_token) (unauthorized "Invalid refresh token")
    throw_if (not (s.compare refresh_token stored)) (unauthorized "Invalid refresh token")
    tokens ← generate_tokens user.id user.email
    update_refresh_token user.id tokens.refresh_token
    pure tokens

  unfoldable pub refresh : Text → Method s RefreshResponse
  unfolding refresh_attempt
  refresh refresh_token =
      try_catch (refresh_attempt refresh_token)
        λ _. throw (unauthorized "Invalid or expired refresh token")
