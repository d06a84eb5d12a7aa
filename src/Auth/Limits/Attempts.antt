-- ===== src/Auth/Limits/Attempts.antt =====
-- Failed attempts at a one-time code: `assertOtpMatch` and `registerResetFailure` of
-- src/modules/platform/auth/auth.service.ts.
use nestjs_boilerplate.Base.{
  ℕ, ◌+◌, ◌<◌, ◌≡◌, leb, false, Option, none, Text, codes, text_eq, text_eq_refl, text_eq-append,
  text_eq-append', if◌then◌else◌, Exception, ok, err, bad_request, arith,
}
use nestjs_boilerplate.Shared.Redis.{Laws}
use nestjs_boilerplate.Auth.Services.{Services, World, config_number, get_config_number, number}
use nestjs_boilerplate.Auth.Limits.{otp_mismatch, max_session_ttl_seconds, register_reset_failure}
use nestjs_boilerplate.Auth.Sessions.{
  attempts, otp_max_attempts, email_verify_session_ttl_seconds, ConfigKey, otp_default, redis_ttl,
}

-- The numbers that the service reads from the configuration are positive.
pub config_number_positive :
    (s : Services) (key : ConfigKey) → 0 < otp_default key → 0 < config_number s key
unfolding get_config_number
config_number_positive s key h = ground arith

module _ (s : Services) (laws : Laws s.redis) (key : Text) where
  -- The failures counted against a session.
  abbrev pub failures : World s → ℕ
  failures w = s.redis.counter (attempts key) w.store

  abbrev pub stored : World s → Option Text
  stored w = s.redis.get key w.store

  -- One more failure: it burns the secret under the key, or it is counted.
  abbrev pub CountsFailure : World s → World s → Type 0
  CountsFailure w w' =
      let burned = leb (config_number s otp_max_attempts) (failures w + 1) in
      (stored w' ≡ (if burned then none else stored w))
      × (failures w' ≡ (if burned then 0 else failures w + 1))
      × (w'.db ≡ w.db)

  -- The exception of a wrong code, by whether it burns the session.
  abbrev pub mismatch_error : World s → Exception
  mismatch_error w =
      if leb (config_number s otp_max_attempts) (failures w + 1)
      then bad_request "Too many failed attempts"
      else bad_request "Invalid verification code"

  -- One wrong code: an exception, and one of two states.
  pub otp_mismatch_lem :
      (w : World s)
      → let (r, w') = otp_mismatch s key w in
        let burned = leb (config_number s otp_max_attempts) (failures w + 1) in
        (r ≡ err (mismatch_error w))
        × (stored w' ≡ (if burned then none else stored w))
        × (failures w' ≡ (if burned then 0 else failures w + 1))
        × (w'.db ≡ w.db)
        × (w'.moment ≡ w.moment)
  unfolding otp_mismatch
  otp_mismatch_lem w =
      let a = attempts key in
      let one = s.redis.incr a w.store in
      let ttl = max_session_ttl_seconds s in
      let positive : 0 < ttl =
        unfold max_session_ttl_seconds in
        config_number_positive s email_verify_session_ttl_seconds (omega arith) in
      let reply = laws.incr_reply a w.store in
      let same = text_eq_refl a in
      let same_key = text_eq_refl key in
      let apart : text_eq a key ≡ false = text_eq-append' key b':' (codes "attempts") in
      let apart' : text_eq key a ≡ false = text_eq-append key b':' (codes "attempts") in
      let two = s.redis.expire a ttl one.1 in
      let del₁ = s.redis.del key one.1 in
      let del₂ = s.redis.del key two.1 in
      (
        ground (arith, reply, same, same_key, apart, apart'),
        ground (
          arith,
          reply,
          same,
          same_key,
          apart,
          apart',
          laws.get-incr a key w.store apart,
          laws.get-expire a key ttl one.1 positive,
          laws.get-del key key one.1,
          laws.get-del key key two.1,
          laws.get-del a key del₁.1,
          laws.get-del a key del₂.1,
        ),
        ground (
          arith,
          reply,
          same,
          same_key,
          apart,
          apart',
          laws.counter-incr a a w.store,
          laws.counter-expire a a ttl one.1 positive,
          laws.counter-del key a one.1,
          laws.counter-del key a two.1,
          laws.counter-del a a del₁.1,
          laws.counter-del a a del₂.1,
        ),
        ground (arith, reply, same, same_key, apart, apart'),
        ground (arith, reply, same, same_key, apart, apart'),
      )

  pub otp_mismatch-CountsFailure : (w : World s) → CountsFailure w (otp_mismatch s key w).1
  otp_mismatch-CountsFailure w = let one = otp_mismatch_lem w in (one.1, one.2, one.3)

  -- A failed reset is counted in the same way, and raises nothing itself.
  pub register_reset_failure_lem :
      (ttl : ℕ) (w : World s)
      → s.config redis_ttl ≡ number ttl
      → 0 < ttl
      → ((register_reset_failure s key w).0 ≡ ok tt)
        × CountsFailure w (register_reset_failure s key w).1
  unfolding register_reset_failure
  register_reset_failure_lem ttl w set positive =
      let a = attempts key in
      let one = s.redis.incr a w.store in
      let reply = laws.incr_reply a w.store in
      let same = text_eq_refl a in
      let same_key = text_eq_refl key in
      let apart : text_eq a key ≡ false = text_eq-append' key b':' (codes "attempts") in
      let apart' : text_eq key a ≡ false = text_eq-append key b':' (codes "attempts") in
      let two = s.redis.expire a ttl one.1 in
      let del₁ = s.redis.del key one.1 in
      let del₂ = s.redis.del key two.1 in
      (
        ground (arith, set),
        (
          ground (
            arith,
            set,
            reply,
            same,
            same_key,
            apart,
            apart',
            laws.get-incr a key w.store apart,
            laws.get-expire a key ttl one.1 positive,
            laws.get-del key key one.1,
            laws.get-del key key two.1,
            laws.get-del a key del₁.1,
            laws.get-del a key del₂.1,
          ),
          ground (
            arith,
            set,
            reply,
            same,
            same_key,
            apart,
            apart',
            laws.counter-incr a a w.store,
            laws.counter-expire a a ttl one.1 positive,
            laws.counter-del key a one.1,
            laws.counter-del key a two.1,
            laws.counter-del a a del₁.1,
            laws.counter-del a a del₂.1,
          ),
          ground (arith, set),
        ),
      )
