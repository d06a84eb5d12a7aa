-- ===== src/Auth/Tests/Sessions.antt =====
-- Runs of the endpoints that verify one-time codes, and of the rate limits.
use nestjs_boilerplate.Base.{
  ℕ, ◌≡◌, refl, true, false, none, some, [], ◌∷◌, ◌++◌, Text, codes, Result, ok, err, bad_request,
  arith, text_eq, if◌then◌else◌, leb, text_eq,
}
use nestjs_boilerplate.Shared.Redis.Memory.{memory, memory-Laws}
use nestjs_boilerplate.Auth.Sessions.{Session}
use nestjs_boilerplate.Auth.Services.{World, get_config_number}
use nestjs_boilerplate.Auth.Limits.{constant_time_equal, read_session, assert_otp_match}
use nestjs_boilerplate.Auth.Limits.Utf8.{utf8}
use nestjs_boilerplate.Shared.Otp.{generate_otp_code}
use nestjs_boilerplate.Auth.Limits.Attempts.{stored, failures}
use nestjs_boilerplate.Auth.Limits.RateLimit.{burst, assert_rate_limit-burst}
use nestjs_boilerplate.Auth.Limits.BruteForce.{tries}
use nestjs_boilerplate.Auth.Tokens.{AuthResponse, to_safe_user, issue_auth_response}
use nestjs_boilerplate.Auth.EmailOtp.{issue_email_verification_otp, verify_email_session}
use nestjs_boilerplate.Auth.Verification.Shape.{session_at}
use nestjs_boilerplate.Auth.Verification.Endpoints.{verify_email, key_of, endpoint, as_kind}
use nestjs_boilerplate.Auth.Verification.Soundness.{Answers, endpoint_sound, endpoint-endpoint}
use nestjs_boilerplate.Auth.Verification.Guesses.{endpoint_guesses}
use nestjs_boilerplate.Auth.Tests.Sample.{sample, users-TableLaws, start, alice_email, alice, whole}

abbrev answer_or : AuthResponse → Result AuthResponse → AuthResponse
answer_or default (ok r) = r
answer_or default (err e) = default

-- Behind the mail for Alice: the code is 004321 and the token the first draw.
abbrev mailed : World sample
mailed = (issue_email_verification_otp sample 1 alice_email start).1

abbrev token : Text
token = codes "uuid" ++ (11 ∷ [])

abbrev code : Text
code = codes "004321"

abbrev session : Session
session = Session.email_verify alice_email 1 code

abbrev wrong : Text
wrong = codes "111111"

abbrev no_answer : AuthResponse
no_answer = record { access_token = []; refresh_token = []; user = to_safe_user (alice whole) }

abbrev answer : AuthResponse
answer = answer_or no_answer (endpoint sample verify_email token code mailed).0

accepted : (endpoint sample verify_email token code mailed).0 ≡ ok answer
unfolding issue_email_verification_otp verify_email_session text_eq read_session generate_otp_code
    assert_otp_match constant_time_equal utf8 issue_auth_response
accepted = refl

endpoint_sound_example :
    (found : Session) × (kept : ℕ) × (expected : Text) × (session_at sample memory-Laws
        (key_of verify_email token)
        mailed
      ≡ some found)
    × (as_kind verify_email found ≡ some (kept, expected))
    × (constant_time_equal code expected ≡ true)
    × Answers sample verify_email kept mailed.db answer.user
endpoint_sound_example =
    endpoint_sound sample memory-Laws users-TableLaws verify_email token code mailed accepted

endpoint-endpoint_example :
    let w' = (endpoint sample verify_email token code mailed).1 in
    endpoint sample verify_email token code w'
    ≡ (err (bad_request "Invalid or expired session"), w')
endpoint-endpoint_example =
    endpoint-endpoint sample memory-Laws users-TableLaws verify_email token code code mailed
      accepted

held :
    stored sample memory-Laws (key_of verify_email token) mailed ≡ some (sample.stringify session)
unfolding issue_email_verification_otp text_eq generate_otp_code
held = refl

live : session_at sample memory-Laws (key_of verify_email token) mailed ≡ some session
unfolding issue_email_verification_otp text_eq generate_otp_code
live = refl

fresh : failures sample memory-Laws (key_of verify_email token) mailed ≡ 0
unfolding issue_email_verification_otp text_eq generate_otp_code
fresh = refl

wrong-code : constant_time_equal wrong code ≡ false
unfolding constant_time_equal text_eq utf8
wrong-code = refl

endpoint_guesses_example :
    let w' = tries (endpoint sample verify_email token) (wrong ∷ wrong ∷ []) mailed in
    (session_at sample memory-Laws (key_of verify_email token) w'
      ≡ (if leb 5 2 then none else some session))
    × (w'.db ≡ mailed.db)
unfolding get_config_number
endpoint_guesses_example =
    endpoint_guesses sample memory-Laws verify_email token (wrong ∷ wrong ∷ []) mailed session 1
      code live refl (wrong-code, (wrong-code, tt)) fresh

assert_rate_limit-burst_example :
    ((burst sample memory-Laws token 3 60 5 start).0 ≡ 3)
    × (memory.counter token (burst sample memory-Laws token 3 60 5 start).1.store ≡ 5)
    × (memory.ttl token (burst sample memory-Laws token 3 60 5 start).1.store ≡ some 60)
assert_rate_limit-burst_example =
    assert_rate_limit-burst sample memory-Laws token 3 60 5 start (omega arith) refl
