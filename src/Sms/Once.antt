-- ===== src/Sms/Once.antt =====
-- A code is sent once, and a send that failed can be tried again.
use nestjs_boilerplate.Base.{
  ◌+◌, ◌≡◌, true, none, some, ◌∷◌, Text, if◌then◌else◌, ok, err, failure, arith, Bool-cases, inl,
  inr, text_eq_refl,
}
use nestjs_boilerplate.Shared.Redis.{Laws}
use nestjs_boilerplate.Sms.{Ports, World, dedup_key, message, process, sms_dedup_ttl_seconds}

module _ (p : Ports) (laws : Laws p.redis) (to otp : Text) where
  abbrev key : Text
  key = dedup_key to otp

  -- While the code is claimed a job for it sends nothing.
  pub process_claimed :
      (w : World p) (token : Text)
      → p.redis.get key w.store ≡ some token
      → ((process p to otp w).0 ≡ ok tt)
        × ((process p to otp w).1.sent ≡ w.sent)
        × (p.redis.get key (process p to otp w).1.store ≡ some token)
  unfolding process
  process_claimed w token held =
      let uuid = p.random_uuid w.moment in
      let set = laws.set_ex_nx_held key uuid token sms_dedup_ttl_seconds w.store held in
      let kept = laws.get-set_ex_nx key key uuid sms_dedup_ttl_seconds w.store in
      (ground (arith, set), ground (arith, set), ground (arith, set, kept, held))

  -- A job for a code that is not claimed: if the sender takes the message, it is sent and the code
  -- stays claimed; if it does not, the job fails, nothing is sent and the claim is given up, so
  -- that the next attempt can send.
  pub process_lem :
      (w : World p)
      → p.redis.get key w.store ≡ none
      → let w' = (process p to otp w).1 in
        let taken = p.send_accepts to (message p otp) (w.moment + 1) in
        ((process p to otp w).0 ≡ (if taken then ok tt else err (failure "send failed")))
        × (w'.sent ≡ (if taken then (to, message p otp) ∷ w.sent else w.sent))
        × (p.redis.get key w'.store ≡ (if taken then some (p.random_uuid w.moment) else none))
  unfolding process
  process_lem w free =
      let uuid = p.random_uuid w.moment in
      let set = laws.set_ex_nx_free key uuid sms_dedup_ttl_seconds w.store free in
      let kept = laws.get-set_ex_nx key key uuid sms_dedup_ttl_seconds w.store in
      let gone =
        laws.get-del key key (p.redis.set_ex_nx key uuid sms_dedup_ttl_seconds w.store).1 in
      let same = text_eq_refl key in
      elim (Bool-cases (p.send_accepts to (message p otp) (w.moment + 1))) [
        | inl taken ↦ (
          ground (arith, set, taken),
          ground (arith, set, taken),
          ground (arith, set, taken, kept, same),
        )
        | inr refused ↦ (
          ground (arith, set, refused),
          ground (arith, set, refused),
          ground (arith, set, refused, gone, same),
        )
      ]

  -- Two jobs for one code that is not claimed send one message, if the sender takes it.
  pub process-process_sms :
      (w : World p)
      → p.redis.get key w.store ≡ none
      → p.send_accepts to (message p otp) (w.moment + 1) ≡ true
      → let w' = (process p to otp w).1 in
        ((process p to otp w').0 ≡ ok tt)
        × ((process p to otp w').1.sent ≡ (to, message p otp) ∷ w.sent)
  process-process_sms w free taken =
      let first = process_lem w free in
      let again =
        process_claimed (process p to otp w).1 (p.random_uuid w.moment)
          (ground (arith, first, taken)) in
      (again.0, ground (arith, again, first, taken))
