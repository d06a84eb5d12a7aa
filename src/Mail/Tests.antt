-- ===== src/Mail/Tests.antt =====
-- Runs of the mail worker.
use nestjs_boilerplate.Base.{text_eq, ◌==◌, not, ◌≡◌, refl, [], ◌∷◌, codes}
use nestjs_boilerplate.Shared.Redis.Memory.{memory, empty}
use nestjs_boilerplate.Auth.Services.{MailJob, otp}
use nestjs_boilerplate.Mail.{Ports, World, call_of, process}

-- A server that is down at moment 1 only.
abbrev ports : Ports
ports = record {
  redis = memory;
  mail_accepts = λ call m. not (m == 1);
  random_uuid = λ m. codes "uuid";
}

abbrev job : MailJob
job = otp (codes "a@b.c") (codes "004321")

abbrev down : World ports
down = record { store = empty; moment = 0; sent = [] }

abbrev up : World ports
up = record { store = empty; moment = 5; sent = [] }

-- The second job of one mail is not sent again.
process_test : (process ports job (process ports job up).1).1.sent ≡ call_of job ∷ []
unfolding process text_eq
process_test = refl

-- A failed send leaves no claim, and the next attempt sends.
retry_test : (process ports job (process ports job down).1).1.sent ≡ call_of job ∷ []
unfolding process text_eq
retry_test = refl
