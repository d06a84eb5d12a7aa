-- ===== src/Auth/Verification/Soundness.antt =====
-- Whom the verification endpoints of src/modules/platform/auth/auth.controller.ts sign in, and that a
-- session serves once, for its own kind only.
use nestjs_boilerplate.Base.{
  ◌≡◌, ◌≢◌, true, false, none, some, Text, Result, ok, err, bad_request, arith, Option-cases, inl,
  inr, text_eq_refl, ◌∙◌, ap, sym, [], ◌∷◌,
}
use nestjs_boilerplate.Shared.Redis.{Laws}
use nestjs_boilerplate.Shared.Users.{User, NewUser, Fits, find_by_id, create}
use nestjs_boilerplate.Shared.Table.{TableLaws}
use nestjs_boilerplate.Auth.Sessions.{Session}
use nestjs_boilerplate.Auth.Services.{Services, World}
use nestjs_boilerplate.Auth.Limits.{constant_time_equal, parsed}
use nestjs_boilerplate.Auth.Limits.Attempts.{stored}
use nestjs_boilerplate.Auth.Tokens.{AuthResponse, SafeUser, to_safe_user}
use nestjs_boilerplate.Auth.Verification.Steps.{without, issue_auth_response_user}
use nestjs_boilerplate.Auth.Verification.Shape.{
  session_at, verification-Accepted, verification_missing,
}
use nestjs_boilerplate.Auth.Verification.Endpoints.{
  Flow, verify_email, email_login, phone_register, phone_login, key_of, endpoint, Kept, as_kind,
  continue, endpoint-verification, continue_store,
}

-- The user of the answer: the one that the session names, or a new account of the session's phone.
abbrev pub Answers : (s : Services) (f : Flow) → Kept f → s.users.Db → SafeUser → Type 0
Answers s phone_register (phone, hashed) db answer = answer.phone ≡ some phone
Answers s verify_email user_id db answer =
    (u : User) × (find_by_id s.users user_id db ≡ some u) × (answer ≡ to_safe_user u)
Answers s email_login user_id db answer =
    (u : User) × (find_by_id s.users user_id db ≡ some u) × (answer ≡ to_safe_user u)
Answers s phone_login user_id db answer =
    (u : User) × (find_by_id s.users user_id db ≡ some u) × (answer ≡ to_safe_user u)

abbrev registration : Text → Text → NewUser
registration phone hashed = record {
  email = none;
  phone = some phone;
  password = some hashed;
  first_name = none;
  last_name = none;
  is_active = true;
  provider = none;
  provider_id = none;
  picture = none;
  email_verified = false;
  phone_verified = true;
}

-- What JSON promises of the payloads: they read back, and no text of one is empty.
pub record JsonLaws (s : Services) : Type 0 where
  pub parse-stringify : (session : Session) → s.parse (s.stringify session) ≡ some session
  pub stringify_nonempty : (session : Session) → s.stringify session ≢ []

module _ (s : Services) (laws : Laws s.redis) (users : TableLaws Fits s.users) where
  outcome : {x y : Result AuthResponse × World s} → x ≡ y → x.0 ≡ y.0
  outcome e = λ i. (e i).0

  created_phone :
      (new : NewUser) (db db' : s.users.Db) (u : User)
      → create s.users new db ≡ some (some u, db')
      → u.phone ≡ new.phone
  unfolding create
  created_phone new db db' u h = elim (Option-cases (s.users.insert (new ∷ []) db)) [
    | inl refused ↦ ground arith
    | inr ((added, db''), done) ↦
        let (row, one, fits) = users.insert_one new db added db'' done in ground (arith, fits.phone)
  ]

  continue-Answers :
      (f : Flow) (k : Kept f) (w : World s) {r : AuthResponse}
      → (continue s f k w).0 ≡ ok r
      → Answers s f k w.db r.user
  continue-Answers verify_email k w h = elim (Option-cases (find_by_id s.users k w.db)) [
    | inl missing ↦ ground arith
    | inr (u, found) ↦ (u, found, grind (arith, issue_auth_response_user s u))
  ]
  continue-Answers email_login k w h = elim (Option-cases (find_by_id s.users k w.db)) [
    | inl missing ↦ ground arith
    | inr (u, found) ↦ (u, found, grind (arith, issue_auth_response_user s u))
  ]
  continue-Answers phone_login k w h = elim (Option-cases (find_by_id s.users k w.db)) [
    | inl missing ↦ ground arith
    | inr (u, found) ↦ (u, found, grind (arith, issue_auth_response_user s u))
  ]
  continue-Answers phone_register (phone, hashed) w h =
      elim (Option-cases (create s.users (registration phone hashed) w.db)) [
        | inl refused ↦ ground arith
        | inr ((none, db'), done) ↦ ground arith
        | inr ((some u, db'), done) ↦
            let row = created_phone (registration phone hashed) w.db db' u done in
            grind (arith, row, issue_auth_response_user s u)
      ]

  -- A verification endpoint answers with tokens only if the key of the session token held a session
  -- of the endpoint's own kind, the submitted code equals the session's code, and the answer is
  -- about the user that the session names (for a registration by phone, about an account of that
  -- phone).
  pub endpoint_sound :
      (f : Flow) (token submitted : Text) (w : World s) {r : AuthResponse}
      → (endpoint s f token submitted w).0 ≡ ok r
      → (session : Session) × (kept : Kept f) × (expected : Text) × (session_at s laws
            (key_of f token)
            w
          ≡ some session)
        × (as_kind f session ≡ some (kept, expected))
        × (constant_time_equal submitted expected ≡ true)
        × Answers s f kept w.db r.user
  endpoint_sound f token submitted w h =
      let same = endpoint-verification s laws f token submitted w in
      let a =
        verification-Accepted s laws (as_kind f) (key_of f token) submitted (continue s f) w
          (outcome (sym same) ∙ h) in
      (
        a.session,
        a.kept,
        a.expected,
        a.held,
        a.kind,
        a.matched,
        continue-Answers f a.kept (without s (key_of f token) w)
            (outcome (sym (same ∙ a.rest)) ∙ h),
      )

  -- A session serves once: after a call that signed a user in, the same endpoint refuses the same
  -- token with any code, and changes nothing.
  pub endpoint-endpoint :
      (f : Flow) (token submitted again : Text) (w : World s) {r : AuthResponse}
      → (endpoint s f token submitted w).0 ≡ ok r
      → let w' = (endpoint s f token submitted w).1 in
        endpoint s f token again w' ≡ (err (bad_request "Invalid or expired session"), w')
  endpoint-endpoint f token submitted again w h =
      let key = key_of f token in
      let same = endpoint-verification s laws f token submitted w in
      let a =
        verification-Accepted s laws (as_kind f) key submitted (continue s f) w
          (outcome (sym same) ∙ h) in
      let w' = (endpoint s f token submitted w).1 in
      let deleted : w'.store ≡ (s.redis.del key w.store).1 =
        (λ i. ((same ∙ a.rest) i).1.store) ∙ continue_store s laws f a.kept (without s key w) in
      let gone : stored s laws key w' ≡ none =
        ap (s.redis.get key) deleted ∙ laws.get-del key key w.store ∙ rw (text_eq_refl key) in
      endpoint-verification s laws f token again w'
      ∙ verification_missing s laws (as_kind f) key again (continue s f) w' (ap (parsed s) gone)
