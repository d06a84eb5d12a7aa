-- ===== src/Mail/Once.antt =====
-- A mail is sent once, and a send that failed can be tried again.
use nestjs_boilerplate.Base.{
  ◌+◌, ◌≡◌, true, none, some, ◌∷◌, Text, if◌then◌else◌, ok, err, failure, arith, Bool-cases, inl,
  inr, text_eq_refl,
}
use nestjs_boilerplate.Shared.Redis.{Laws}
use nestjs_boilerplate.Auth.Services.{MailJob}
use nestjs_boilerplate.Mail.{Ports, World, call_of, dedup_key, process, mail_dedup_ttl_seconds}

module _ (p : Ports) (laws : Laws p.redis) (job : MailJob) where
  abbrev key : Text
  key = dedup_key job

  -- While the mail is claimed a job for it sends nothing.
  pub process_claimed :
      (w : World p) (token : Text)
      → p.redis.get key w.store ≡ some token
      → ((process p job w).0 ≡ ok tt)
        × ((process p job w).1.sent ≡ w.sent)
        × (p.redis.get key (process p job w).1.store ≡ some token)
  unfolding process
  process_claimed w token held =
      let uuid = p.random_uuid w.moment in
      let set = laws.set_ex_nx_held key uuid token mail_dedup_ttl_seconds w.store held in
      let kept = laws.get-set_ex_nx key key uuid mail_dedup_ttl_seconds w.store in
      (ground (arith, set), ground (arith, set), ground (arith, set, kept, held))

  -- A job for a mail that is not claimed: if the mail service takes it, the mail is sent and stays
  -- claimed; if it does not, the job fails, nothing is sent and the claim is given up, so that the
  -- next attempt can send.
  pub process_mail_lem :
      (w : World p)
      → p.redis.get key w.store ≡ none
      → let w' = (process p job w).1 in
        let taken = p.mail_accepts (call_of job) (w.moment + 1) in
        ((process p job w).0 ≡ (if taken then ok tt else err (failure "send failed")))
        × (w'.sent ≡ (if taken then call_of job ∷ w.sent else w.sent))
        × (p.redis.get key w'.store ≡ (if taken then some (p.random_uuid w.moment) else none))
  unfolding process
  process_mail_lem w free =
      let uuid = p.random_uuid w.moment in
      let set = laws.set_ex_nx_free key uuid mail_dedup_ttl_seconds w.store free in
      let kept = laws.get-set_ex_nx key key uuid mail_dedup_ttl_seconds w.store in
      let gone =
        laws.get-del key key (p.redis.set_ex_nx key uuid mail_dedup_ttl_seconds w.store).1 in
      let same = text_eq_refl key in
      elim (Bool-cases (p.mail_accepts (call_of job) (w.moment + 1))) [
        | inl taken ↦ (
          ground (arith, set, taken),
          ground (arith, set, taken),
          ground (arith, set, taken, kept, same),
        )
        | inr refused ↦ (
          ground (arith, set, refused),
          ground (arith, set, refused),
          ground (arith, set, refused, gone, same),
        )
      ]

  -- Two jobs for one mail that is not claimed send one mail, if the mail service takes it.
  pub process-process_mail :
      (w : World p)
      → p.redis.get key w.store ≡ none
      → p.mail_accepts (call_of job) (w.moment + 1) ≡ true
      → let w' = (process p job w).1 in
        ((process p job w').0 ≡ ok tt) × ((process p job w').1.sent ≡ call_of job ∷ w.sent)
  process-process_mail w free taken =
      let first = process_mail_lem w free in
      let again =
        process_claimed (process p job w).1 (p.random_uuid w.moment)
          (ground (arith, first, taken)) in
      (again.0, ground (arith, again, first, taken))
