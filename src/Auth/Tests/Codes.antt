-- ===== src/Auth/Tests/Codes.antt =====
-- A run in production of the methods that send one-time codes.
use nestjs_boilerplate.Base.{◌≡◌, refl, false, [], codes, none}
use nestjs_boilerplate.Auth.Services.{Services, World, string}
use nestjs_boilerplate.Auth.EmailOtp.{login_email, resend_email_verification}
use nestjs_boilerplate.Auth.PhoneOtp.{register_phone, login_phone}
use nestjs_boilerplate.Auth.Echo.{session_echoes, reply_echoes, one_time_codes_withheld}
use nestjs_boilerplate.Auth.Tests.Sample.{sample, start, alice_email, alice_password}

-- Every key of the configuration reads `production`.
abbrev production : Services
production = record sample { config = λ key. string (codes "production") }

abbrev begin : World production
begin = record {
  store = start.store;
  db = start.db;
  moment = 10;
  google_client = none;
  dummy_password_hash = none;
  outbox = [];
  messages = [];
}

one_time_codes_withheld_example :
    (session_echoes (login_email production alice_email alice_password begin).0 ≡ false)
    × (reply_echoes (resend_email_verification production alice_email begin).0 ≡ false)
    × (session_echoes (register_phone production alice_email alice_password begin).0 ≡ false)
    × (session_echoes (login_phone production alice_email alice_password begin).0 ≡ false)
one_time_codes_withheld_example =
    one_time_codes_withheld production begin alice_email alice_password refl
