-- ===== src/Auth/Verification/Guesses.antt =====
-- Guessing the code of a session at an endpoint of src/modules/platform/auth/auth.controller.ts.
use nestjs_boilerplate.Base.{
  ◌≤◌, ◌≡◌, leb, false, none, some, Text, err, bad_request, arith, if◌then◌else◌, ◌∙◌, ap, sym,
  subst, List, length, All,
}
use nestjs_boilerplate.Shared.Redis.{Laws}
use nestjs_boilerplate.Auth.Sessions.{Session, otp_max_attempts}
use nestjs_boilerplate.Auth.Services.{Services, World, config_number}
use nestjs_boilerplate.Auth.Limits.{constant_time_equal, parsed}
use nestjs_boilerplate.Auth.Limits.Attempts.{
  stored, failures, config_number_positive, CountsFailure, otp_mismatch-CountsFailure,
}
use nestjs_boilerplate.Auth.Limits.BruteForce.{tries, tries_lem}
use nestjs_boilerplate.Auth.Verification.Shape.{
  session_at, parsed_stored, verification_missing, verification_wrong,
}
use nestjs_boilerplate.Auth.Verification.Endpoints.{
  Flow, key_of, endpoint, Kept, as_kind, continue, endpoint-verification,
}

module _ (s : Services) (laws : Laws s.redis) (f : Flow) (token : Text) where
  abbrev key : Text
  key = key_of f token

  -- Of wrong codes against a live session of the endpoint's kind with no failure counted, fewer
  -- than the configured maximum leave the session in place and as many or more burn it; none of
  -- them changes a user.
  pub endpoint_guesses :
      (guesses : List Text) (w : World s) (session : Session) (kept : Kept f) (expected : Text)
      → session_at s laws key w ≡ some session
      → as_kind f session ≡ some (kept, expected)
      → All (λ g. constant_time_equal g expected ≡ false) guesses
      → failures s laws key w ≡ 0
      → let w' = tries (endpoint s f token) guesses w in
        (session_at s laws key w' ≡ (
          if leb (config_number s otp_max_attempts) (length guesses) then none else some session))
        × (w'.db ≡ w.db)
  endpoint_guesses guesses w session kept expected held kind bad none_yet =
      let (raw, there) =
        parsed_stored s laws (as_kind f) key expected (continue s f) (stored s laws key w) held in
      let live : parsed s (some raw) ≡ some session = ap (parsed s) (sym there) ∙ held in
      let main =
        tries_lem s laws key raw (endpoint s f token) (λ g. constant_time_equal g expected ≡ false)
          (λ g v wrong here.
            let e =
              endpoint-verification s laws f token g v
              ∙ verification_wrong s laws (as_kind f) key g (continue s f) v session kept expected
                  (ap (parsed s) here ∙ live) kind wrong in
            subst (CountsFailure s laws key v) (λ i. (sym e i).1)
              (otp_mismatch-CountsFailure s laws key v))
          (λ g v gone.
            let e =
              endpoint-verification s laws f token g v
              ∙ verification_missing s laws (as_kind f) key g (continue s f) v
                  (ap (parsed s) gone) in
            ((λ i. s.redis.get key (e i).1.store) ∙ gone, λ i. (e i).1.db))
          guesses w bad there
          (omega (arith, none_yet, config_number_positive s otp_max_attempts (omega arith))) in
      (ground (arith, main.0, none_yet, live), main.1)

  -- After as many wrong codes as the configured maximum against a live session of the endpoint's
  -- kind with no failure counted, every code is refused, the right one too.
  pub endpoint_burned :
      (guesses : List Text) (w : World s) (session : Session) (kept : Kept f) (expected code : Text)
      → session_at s laws key w ≡ some session
      → as_kind f session ≡ some (kept, expected)
      → All (λ g. constant_time_equal g expected ≡ false) guesses
      → failures s laws key w ≡ 0
      → config_number s otp_max_attempts ≤ length guesses
      → let w' = tries (endpoint s f token) guesses w in
        endpoint s f token code w' ≡ (err (bad_request "Invalid or expired session"), w')
  endpoint_burned guesses w session kept expected code held kind bad none_yet many =
      let main = endpoint_guesses guesses w session kept expected held kind bad none_yet in
      let w' = tries (endpoint s f token) guesses w in
      let gone : session_at s laws key w' ≡ none = ground (arith, main.0) in
      endpoint-verification s laws f token code w'
      ∙ verification_missing s laws (as_kind f) key code (continue s f) w' gone
