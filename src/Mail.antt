-- ===== src/Mail.antt =====
-- src/modules/platform/mail/queue/mail.processor.ts: the worker that sends the mails with codes, once
-- each. `MailService` renders and sends a mail; it is a parameter.
pub mod Once
mod Tests
use nestjs_boilerplate.Base.{
  ℕ, ◌+◌, Bool, true, false, Option, none, some, List, [], ◌∷◌, ◌++◌, Text, codes, Result, ok, err,
  failure, Action, pure, throw, try_catch, ◌>>=◌, ◌>>◌,
}
use nestjs_boilerplate.Shared.Redis
use nestjs_boilerplate.Shared.Redis.{Server}
use nestjs_boilerplate.Auth.Services.{MailJob, password_reset, verify_email, otp}

-- The three methods of MailService that the worker calls.
pub data MailCall : Type 0 where
  send_otp_email send_verification_email send_password_reset_email :
      (to : Text) (code : Text) → MailCall

pub record Ports : Type 1 where
  pub redis : Server
  pub mail_accepts : MailCall → ℕ → Bool
  pub random_uuid : ℕ → Text

module _ (p : Ports) where
  pub record World : Type 0 where
    pub store : p.redis.Store
    pub moment : ℕ
    -- the mails that were sent, the newest first
    pub sent : List MailCall

abbrev pub mail_dedup_ttl_seconds : ℕ
mail_dedup_ttl_seconds = 900

abbrev template_of : MailJob → Text
template_of (password_reset to code) = codes "password-reset"
template_of (verify_email to code) = codes "verify-email"
template_of (otp to code) = codes "otp"

abbrev to_of : MailJob → Text
to_of (password_reset to code) = to
to_of (verify_email to code) = to
to_of (otp to code) = to

abbrev code_of : MailJob → Text
code_of (password_reset to code) = code
code_of (verify_email to code) = code
code_of (otp to code) = code

abbrev pub dedup_key : MailJob → Text
dedup_key job =
    codes "mail:sent:" ++ template_of job ++ codes ":" ++ to_of job ++ codes ":" ++ code_of job

-- The switch of `send`.
abbrev pub call_of : MailJob → MailCall
call_of (otp to code) = send_otp_email to code
call_of (verify_email to code) = send_verification_email to code
call_of (password_reset to code) = send_password_reset_email to code

module _ (p : Ports) where
  abbrev pub Method : Type 0 → Type 0
  Method A = Action (World p) A

  abbrev acquire : Text → Method (Option Text)
  unfolding Redis.acquire_lock
  acquire key w =
      let (claimed, store) =
        Redis.acquire_lock p.redis (p.random_uuid w.moment) key mail_dedup_ttl_seconds w.store in
      (ok claimed, record w { store = store; moment = w.moment + 1 })

  abbrev send : MailJob → Method (Unit {0})
  send job w = elim (p.mail_accepts (call_of job) w.moment) [
    | true ↦ (ok tt, record w { moment = w.moment + 1; sent = call_of job ∷ w.sent })
    | false ↦ (err (failure "send failed"), record w { moment = w.moment + 1 })
  ]

  abbrev del : Text → Method (Unit {0})
  unfolding Redis.del
  del key w = (ok tt, record w { store = (Redis.del p.redis key w.store).1 })

  abbrev send_once : MailJob → Option Text → Method (Unit {0})
  unfolding del
  send_once job none = pure tt
  send_once job (some token) = try_catch (send job) (λ e. del (dedup_key job) >> throw e)

  unfoldable pub process : MailJob → Method (Unit {0})
  unfolding acquire send_once
  process job = acquire (dedup_key job) >>= send_once job
