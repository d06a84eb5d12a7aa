-- ===== src/Auth/Verification/Shape.antt =====
-- The shape of the four verification methods of src/modules/platform/auth/auth.service.ts, and the
-- inversion of a call that signed a user in.
use nestjs_boilerplate.Base.{
  ◌≡◌, refl, true, false, Option, none, some, Text, ok, err, bad_request, arith, Bool-cases,
  Option-cases, inl, inr, or_throw, ◌>>=◌, ◌>>◌,
}
use nestjs_boilerplate.Shared.Redis.{Laws}
use nestjs_boilerplate.Auth.Sessions.{Session}
use nestjs_boilerplate.Auth.Services.{Services, World, Method}
use nestjs_boilerplate.Auth.Limits.{constant_time_equal, parsed, read_session, otp_mismatch}
use nestjs_boilerplate.Auth.Limits.Attempts.{stored, mismatch_error}
use nestjs_boilerplate.Auth.Tokens.{AuthResponse}
use nestjs_boilerplate.Auth.EmailOtp.{consume_session}
use nestjs_boilerplate.Auth.Verification.Steps.{
  without, consume_session_right, consume_session_wrong,
}

-- The session that a verification method finds: its key must hold one.
abbrev pub session_at : (s : Services) → Laws s.redis → Text → World s → Option Session
session_at s laws key w = parsed s (stored s laws key w)

module _ (s : Services) (laws : Laws s.redis) {K : Type 0} (as_kind : Session → Option (K × Text))
    (key submitted : Text) (next : K → Method s AuthResponse) where
  -- `next` is what the method does once the session is used up.
  abbrev pub verification : Method s AuthResponse
  verification = do
    session ← or_throw (← read_session s key) (bad_request "Invalid or expired session")
    (k, expected) ← or_throw (as_kind session) (bad_request "Invalid session type")
    consume_session s key submitted expected
    next k

  -- What a call had found that signed a user in.
  pub record Accepted (w : World s) : Type 0 where
    pub session : Session
    pub kept : K
    pub expected : Text
    pub held : session_at s laws key w ≡ some session
    pub kind : as_kind session ≡ some (kept, expected)
    pub matched : constant_time_equal submitted expected ≡ true
    pub rest : verification w ≡ next kept (without s key w)

  pub parsed_stored :
      (o : Option Text) {session : Session}
      → parsed s o ≡ some session
      → (raw : Text) × (o ≡ some raw)
  parsed_stored none h = cc
  parsed_stored (some raw) h = (raw, refl)

  verification_right :
      (w : World s) (session : Session) (k : K) (expected : Text)
      → session_at s laws key w ≡ some session
      → as_kind session ≡ some (k, expected)
      → constant_time_equal submitted expected ≡ true
      → verification w ≡ next k (without s key w)
  unfolding read_session
  verification_right w session k expected held kind matched =
      let (raw, there) = parsed_stored (stored s laws key w) held in
      let used = consume_session_right s laws key submitted expected w matched there in
      ground (arith, used)

  -- A wrong code is an exception, and the state is that of one more failure.
  pub verification_wrong :
      (w : World s) (session : Session) (k : K) (expected : Text)
      → session_at s laws key w ≡ some session
      → as_kind session ≡ some (k, expected)
      → constant_time_equal submitted expected ≡ false
      → verification w ≡ (err (mismatch_error s laws key w), (otp_mismatch s key w).1)
  unfolding read_session
  verification_wrong w session k expected held kind wrong =
      ground (arith, consume_session_wrong s laws key submitted expected w wrong)

  -- A missing session, and a session of another kind, are refused and change nothing.
  pub verification_missing :
      (w : World s)
      → session_at s laws key w ≡ none
      → verification w ≡ (err (bad_request "Invalid or expired session"), w)
  unfolding read_session
  verification_missing w h = ground arith

  pub verification_other_kind :
      (w : World s) (session : Session)
      → session_at s laws key w ≡ some session
      → as_kind session ≡ none
      → verification w ≡ (err (bad_request "Invalid session type"), w)
  unfolding read_session
  verification_other_kind w session held other = ground arith

  pub verification-Accepted :
      (w : World s) {r : AuthResponse} → (verification w).0 ≡ ok r → Accepted w
  verification-Accepted w {r} h = elim (Option-cases (session_at s laws key w)) [
    | inl missing ↦ ground (arith, verification_missing w missing)
    | inr (session, held) ↦ elim (Option-cases (as_kind session)) [
      | inl other ↦ ground (arith, verification_other_kind w session held other)
      | inr ((k, expected), kind) ↦ elim (Bool-cases (constant_time_equal submitted expected)) [
        | inl matched ↦ record {
          session = session;
          kept = k;
          expected = expected;
          held = held;
          kind = kind;
          matched = matched;
          rest = verification_right w session k expected held kind matched;
        }
        | inr wrong ↦ ground (arith, verification_wrong w session k expected held kind wrong)
      ]
    ]
  ]
