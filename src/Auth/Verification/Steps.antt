-- ===== src/Auth/Verification/Steps.antt =====
-- The steps that the verification methods of src/modules/platform/auth/auth.service.ts share: the
-- session is used up by the right code, a wrong code counts, and tokens leave Redis alone.
use nestjs_boilerplate.Base.{◌≡◌, true, false, some, Text, ok, err, arith}
use nestjs_boilerplate.Shared.Redis.{Laws}
use nestjs_boilerplate.Shared.Users.{User}
use nestjs_boilerplate.Auth.Services.{Services, World}
use nestjs_boilerplate.Auth.Limits.{constant_time_equal, assert_otp_match, otp_mismatch}
use nestjs_boilerplate.Auth.Limits.Attempts.{stored, mismatch_error, otp_mismatch_lem}
use nestjs_boilerplate.Auth.Tokens.{AuthResponse, to_safe_user, issue_auth_response}
use nestjs_boilerplate.Auth.EmailOtp.{consume_session}

module _ (s : Services) where
  -- The state with one key deleted.
  abbrev pub without : Text → World s → World s
  without key w = record w { store = (s.redis.del key w.store).1 }

  pub issue_auth_response_store :
      (u : User) (w : World s) → (issue_auth_response s u w).1.store ≡ w.store
  unfolding issue_auth_response
  issue_auth_response_store u w = ground arith

  pub issue_auth_response_user :
      (u : User) (w : World s) {r : AuthResponse}
      → (issue_auth_response s u w).0 ≡ ok r
      → r.user ≡ to_safe_user u
  unfolding issue_auth_response
  issue_auth_response_user u w h = ground arith

module _ (s : Services) (laws : Laws s.redis) (key : Text) (submitted expected : Text) where
  pub consume_session_right :
      (w : World s) {raw : Text}
      → constant_time_equal submitted expected ≡ true
      → stored s laws key w ≡ some raw
      → consume_session s key submitted expected w ≡ (ok tt, without s key w)
  unfolding consume_session assert_otp_match
  consume_session_right w {raw} right held = ground (arith, laws.del_held key raw w.store held)

  pub consume_session_wrong :
      (w : World s)
      → constant_time_equal submitted expected ≡ false
      → consume_session s key submitted expected w
        ≡ (err (mismatch_error s laws key w), (otp_mismatch s key w).1)
  unfolding consume_session assert_otp_match
  consume_session_wrong w wrong = let one = otp_mismatch_lem s laws key w in ground (arith, one.0)
