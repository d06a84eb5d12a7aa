-- ===== src/Auth/Verification/Endpoints.antt =====
-- The four endpoints of src/modules/platform/auth/auth.controller.ts that verify a one-time code, as one
-- family: the method that each calls, the key of its sessions and the kind of session it accepts.
use nestjs_boilerplate.Base.{
  ℕ, ◌≡◌, refl, true, false, Option, none, some, Text, arith, or_throw, gets, ◌>>=◌, ◌>>◌,
  bad_request, internal_server_error,
}
use nestjs_boilerplate.Shared.Redis.{Laws}
use nestjs_boilerplate.Shared.Users
use nestjs_boilerplate.Shared.Users.{User}
use nestjs_boilerplate.Auth.Sessions.{
  Session, email_verify_session, email_login_session, phone_session,
}
use nestjs_boilerplate.Auth.Services.{Services, World, Method, users_set, users_insert}
use nestjs_boilerplate.Auth.Tokens.{AuthResponse, issue_auth_response}
use nestjs_boilerplate.Auth.EmailOtp.{
  as_email_verify, as_email_login, verify_email_session, verify_email_login,
}
use nestjs_boilerplate.Auth.PhoneOtp.{
  as_phone_register, as_phone_login, verify_phone_register, verify_phone_login,
}
use nestjs_boilerplate.Auth.Verification.Steps.{issue_auth_response_store}
use nestjs_boilerplate.Auth.Verification.Shape.{verification}

pub data Flow : Type 0 where
  verify_email email_login phone_register phone_login : Flow

abbrev pub key_of : Flow → Text → Text
key_of verify_email token = email_verify_session token
key_of email_login token = email_login_session token
key_of phone_register token = phone_session token
key_of phone_login token = phone_session token

-- The handler of the endpoint, on the session token and the code of the request.
abbrev pub endpoint : (s : Services) → Flow → Text → Text → Method s AuthResponse
endpoint s verify_email token submitted = verify_email_session s token submitted
endpoint s email_login token submitted = verify_email_login s token submitted
endpoint s phone_register token submitted = verify_phone_register s token submitted
endpoint s phone_login token submitted = verify_phone_login s token submitted

-- What a session of the right kind carries beside its code: the user, or the account to create.
abbrev pub Kept : Flow → Type 0
Kept phone_register = Text × Text
Kept _ = ℕ

abbrev pub as_kind : (f : Flow) → Session → Option (Kept f × Text)
as_kind verify_email = as_email_verify
as_kind email_login = as_email_login
as_kind phone_register = as_phone_register
as_kind phone_login = as_phone_login

module _ (s : Services) where
  -- What each method does once the session is used up.
  abbrev sign_in : ℕ → Method s AuthResponse
  sign_in user_id = do
    found ← gets (λ w. Users.find_by_id s.users user_id w.db)
    user ← or_throw found (bad_request "User not found")
    issue_auth_response s user

  abbrev mark_and_sign_in : ℕ → Method s AuthResponse
  mark_and_sign_in user_id = do
    found ← gets (λ w. Users.find_by_id s.users user_id w.db)
    user ← or_throw found (bad_request "User not found")
    users_set s (λ moment. Users.mark_email_verified s.users moment user.id)
    issue_auth_response s user

  abbrev create_and_sign_in : Text × Text → Method s AuthResponse
  create_and_sign_in (phone, hashed) = do
    created ← users_insert s (λ _. Users.create s.users (record {
      email = none;
      phone = some phone;
      password = some hashed;
      first_name = none;
      last_name = none;
      is_active = true;
      provider = none;
      provider_id = none;
      picture = none;
      email_verified = false;
      phone_verified = true;
    }))
    user ← or_throw created (internal_server_error "Failed to create user")
    issue_auth_response s user

  abbrev pub continue : (f : Flow) → Kept f → Method s AuthResponse
  continue verify_email = mark_and_sign_in
  continue email_login = sign_in
  continue phone_register = create_and_sign_in
  continue phone_login = sign_in

module _ (s : Services) (laws : Laws s.redis) where
  pub endpoint-verification :
      (f : Flow) (token submitted : Text) (w : World s)
      → endpoint s f token submitted w
        ≡ verification s laws (as_kind f) (key_of f token) submitted (continue s f) w
  unfolding verify_email_session verify_email_login verify_phone_register verify_phone_login
  endpoint-verification verify_email token submitted w = refl
  endpoint-verification email_login token submitted w = refl
  endpoint-verification phone_register token submitted w = refl
  endpoint-verification phone_login token submitted w = refl

  -- None of them touches Redis any more.
  pub continue_store : (f : Flow) (k : Kept f) (w : World s) → (continue s f k w).1.store ≡ w.store
  continue_store verify_email k w = grind (arith, issue_auth_response_store s)
  continue_store email_login k w = grind (arith, issue_auth_response_store s)
  continue_store phone_register (phone, hashed) w = grind (arith, issue_auth_response_store s)
  continue_store phone_login k w = grind (arith, issue_auth_response_store s)
