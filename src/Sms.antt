-- ===== src/Sms.antt =====
-- src/modules/platform/sms/queue/sms.processor.ts: the worker that sends one-time codes, once each.
pub mod Once
mod Tests
use nestjs_boilerplate.Base.{
  starts_with, ℕ, zero, suc, ◌+◌, ◌-◌, ◌==◌, ◌&&◌, Bool, true, false, Option, none, some, List, [],
  ◌∷◌, ◌++◌, length, Text, codes, if◌then◌else◌, Result, ok, err, failure, Action, pure, throw,
  try_catch, ◌>>=◌, ◌>>◌,
}
use nestjs_boilerplate.Shared.Redis
use nestjs_boilerplate.Shared.Redis.{Server}

-- The sender's port, the random source, the server and the configured template.
pub record Ports : Type 1 where
  pub redis : Server
  pub send_accepts : Text → Text → ℕ → Bool
  pub random_uuid : ℕ → Text
  pub template : Option Text

module _ (p : Ports) where
  pub record World : Type 0 where
    pub store : p.redis.Store
    pub moment : ℕ
    -- the messages that the sender took, the newest first
    pub sent : List (Text × Text)

abbrev pub sms_dedup_ttl_seconds : ℕ
sms_dedup_ttl_seconds = 900

-- `s.replaceAll(pattern, replacement)` for a pattern that is not empty and a replacement without
-- `$`; `skip` counts the units of a match that are still to be passed over.
unfoldable pub replace_all : Text → Text → ℕ → Text → Text
replace_all pattern replacement skip [] = []
replace_all pattern replacement (suc skip) (c ∷ s) = replace_all pattern replacement skip s
replace_all pattern replacement zero (c ∷ s) =
    let matched = replace_all pattern replacement (length pattern - 1) s in
    let other = replace_all pattern replacement 0 s in
    if starts_with pattern (c ∷ s) then replacement ++ matched else c ∷ other

abbrev template_or : Option Text → Text
template_or none = codes "Your code: {otp}"
template_or (some t) = t

abbrev pub dedup_key : Text → Text → Text
dedup_key to otp = codes "sms:sent:" ++ to ++ codes ":" ++ otp

module _ (p : Ports) where
  abbrev pub Method : Type 0 → Type 0
  Method A = Action (World p) A

  unfoldable pub message : Text → Text
  unfolding replace_all
  message otp = replace_all (codes "{otp}") otp 0 (template_or p.template)

  abbrev acquire : Text → Method (Option Text)
  unfolding Redis.acquire_lock
  acquire key w =
      let (claimed, store) =
        Redis.acquire_lock p.redis (p.random_uuid w.moment) key sms_dedup_ttl_seconds w.store in
      (ok claimed, record w { store = store; moment = w.moment + 1 })

  abbrev send : Text → Text → Method (Unit {0})
  send to text w = elim (p.send_accepts to text w.moment) [
    | true ↦ (ok tt, record w { moment = w.moment + 1; sent = (to, text) ∷ w.sent })
    | false ↦ (err (failure "send failed"), record w { moment = w.moment + 1 })
  ]

  abbrev del : Text → Method (Unit {0})
  unfolding Redis.del
  del key w = (ok tt, record w { store = (Redis.del p.redis key w.store).1 })

  abbrev send_once : Text → Text → Option Text → Method (Unit {0})
  unfolding del message
  send_once to otp none = pure tt
  send_once to otp (some token) =
      try_catch (send to (message otp)) (λ e. del (dedup_key to otp) >> throw e)

  unfoldable pub process : Text → Text → Method (Unit {0})
  unfolding acquire send_once
  process to otp = acquire (dedup_key to otp) >>= send_once to otp
