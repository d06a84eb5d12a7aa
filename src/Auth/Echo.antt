-- ===== src/Auth/Echo.antt =====
-- What the methods of src/modules/platform/auth/auth.service.ts that send a one-time code answer with:
-- the code is echoed outside production only.
use nestjs_boilerplate.Base.{
  ℕ, ◌≡◌, Bool, false, Option, none, some, Text, codes, text_eq_refl, Result, ok, err, arith,
}
use nestjs_boilerplate.Shared.Otp.{generate_otp_code}
use nestjs_boilerplate.Shared.Users.{User, truthy}
use nestjs_boilerplate.Auth.Sessions.{node_env}
use nestjs_boilerplate.Auth.Services.{Services, World, string, should_echo_otp}
use nestjs_boilerplate.Auth.EmailOtp.{
  OtpSession, to_otp_session, resend_email_verification, issue_email_verification_otp, login_email,
  issue_email_login_otp,
}
use nestjs_boilerplate.Auth.PhoneOtp.{register_phone, login_phone}
use nestjs_boilerplate.Auth.Accounts.{is_some}

abbrev pub echoes : OtpSession → Bool
echoes o = is_some o.otp

-- Whether an answer carries a code: the one of a session, and the one of a session or `null`.
abbrev pub session_echoes : Result OtpSession → Bool
session_echoes (ok o) = echoes o
session_echoes (err e) = false

abbrev pub reply_echoes : Result (Option OtpSession) → Bool
reply_echoes (ok (some o)) = echoes o
reply_echoes (ok none) = false
reply_echoes (err e) = false

module _ (s : Services) where
  -- No code is given to the session: that of a phone.
  no_code : (token : Text) (ttl : ℕ) → echoes (to_otp_session s token ttl none) ≡ false
  unfolding to_otp_session truthy
  no_code token ttl = ground arith

  module _ (production : s.config node_env ≡ string (codes "production")) where
    not_echoed : should_echo_otp s ≡ false
    unfolding should_echo_otp
    not_echoed = ground (arith, production, text_eq_refl (codes "production"))

    withheld :
        (token : Text) (ttl : ℕ) (code : Option Text)
        → echoes (to_otp_session s token ttl code) ≡ false
    unfolding to_otp_session
    withheld token ttl code = ground (arith, not_echoed)

    issue_email_login_otp-silent :
        (user : User) (email : Text) (w : World s)
        → session_echoes (issue_email_login_otp s user email w).0 ≡ false
    unfolding issue_email_login_otp to_otp_session generate_otp_code
    issue_email_login_otp-silent user email w = ground (arith, not_echoed)

    login_email-silent :
        (raw_email password : Text) (w : World s)
        → session_echoes (login_email s raw_email password w).0 ≡ false
    unfolding login_email issue_email_login_otp to_otp_session generate_otp_code
    login_email-silent raw_email password w = ground (arith, not_echoed)

    issue_email_verification_otp-silent :
        (id : ℕ) (email : Text) (w : World s)
        → session_echoes (issue_email_verification_otp s id email w).0 ≡ false
    unfolding issue_email_verification_otp to_otp_session generate_otp_code
    issue_email_verification_otp-silent id email w = ground (arith, not_echoed)

    resend-silent :
        (raw_email : Text) (w : World s)
        → reply_echoes (resend_email_verification s raw_email w).0 ≡ false
    unfolding resend_email_verification issue_email_verification_otp to_otp_session
        generate_otp_code
    resend-silent raw_email w = ground (arith, not_echoed)

  register_phone-silent :
      (raw_phone password : Text) (w : World s)
      → session_echoes (register_phone s raw_phone password w).0 ≡ false
  unfolding register_phone to_otp_session truthy generate_otp_code
  register_phone-silent raw_phone password w = ground arith

  login_phone-silent :
      (raw_phone password : Text) (w : World s)
      → session_echoes (login_phone s raw_phone password w).0 ≡ false
  unfolding login_phone to_otp_session truthy generate_otp_code
  login_phone-silent raw_phone password w = ground arith

  -- In production no answer carries a one-time code: not those of the email login, of the resend of
  -- a verification, of the registration by phone and of the login by phone.
  pub one_time_codes_withheld :
      (w : World s) (login password : Text)
      → s.config node_env ≡ string (codes "production")
      → (session_echoes (login_email s login password w).0 ≡ false)
        × (reply_echoes (resend_email_verification s login w).0 ≡ false)
        × (session_echoes (register_phone s login password w).0 ≡ false)
        × (session_echoes (login_phone s login password w).0 ≡ false)
  one_time_codes_withheld w login password production = (
    login_email-silent production login password w,
    resend-silent production login w,
    register_phone-silent login password w,
    login_phone-silent login password w,
  )
