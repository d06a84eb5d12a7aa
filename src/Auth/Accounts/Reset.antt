-- ===== src/Auth/Accounts/Reset.antt =====
-- The password reset of src/modules/platform/auth/auth.service.ts: what a right code changes, how many
-- wrong ones there can be, and what `forgotPassword` reveals.
use nestjs_boilerplate.Base.{
  ℕ, ◌+◌, ◌<◌, ◌≡◌, leb, true, false, none, some, Text, codes, text_eq, text_eq_refl,
  text_eq-append, text_eq-append', ok, err, bad_request, arith, if◌then◌else◌, ◌∙◌, List, ◌∷◌,
  length, All,
}
use nestjs_boilerplate.Shared.Redis.{Laws}
use nestjs_boilerplate.Shared.Table.{TableLaws}
use nestjs_boilerplate.Shared.Users
use nestjs_boilerplate.Shared.Users.{
  User, Fits, truthy, find_by_email, set_password, set_refresh_token,
}
use nestjs_boilerplate.Shared.Users.Laws.{
  find_by_email-update_password, find_by_email-update_refresh_token,
}
use nestjs_boilerplate.Auth.Normalize.{normalize_email}
use nestjs_boilerplate.Auth.Sessions.{
  bcrypt_salt_rounds, reset_password_key, attempts, otp_max_attempts, redis_ttl,
}
use nestjs_boilerplate.Auth.Services.{Services, World, config_number, number}
use nestjs_boilerplate.Auth.Limits.{constant_time_equal, register_reset_failure}
use nestjs_boilerplate.Auth.Limits.Attempts.{
  stored, failures, CountsFailure, register_reset_failure_lem, config_number_positive,
}
use nestjs_boilerplate.Auth.Limits.BruteForce.{tries, tries_lem}
use nestjs_boilerplate.Auth.Accounts.{matches, reset_password}

module _ (s : Services) (laws : Laws s.redis) (raw_email : Text) where
  abbrev email : Text
  email = normalize_email s.wide_lower raw_email

  abbrev key : Text
  key = reset_password_key email

  reset_password_right :
      (code password : Text) (w : World s) (kept : Text) (u : User)
      → truthy (stored s laws key w) ≡ some kept
      → constant_time_equal kept code ≡ true
      → find_by_email s.users email w.db ≡ some u
      → reset_password s raw_email code password w ≡ (
        ok tt,
        record w {
          store = (s.redis.del (attempts key) (s.redis.del key w.store).1).1;
          db = Users.update_refresh_token s.users (w.moment + 1 + 1) u.id none (
              Users.update_password s.users
                (w.moment + 1)
                email
                (s.hash password bcrypt_salt_rounds w.moment)
                w.db);
          moment = w.moment + 1 + 1 + 1;
        },
      )
  unfolding reset_password
  reset_password_right code password w kept u held right found = ground (arith, held, right, found)

  -- A wrong code, and any code where none is stored, is refused; the failure is counted.
  reset_password_wrong :
      (code password : Text) (w : World s)
      → matches (truthy (stored s laws key w)) code ≡ false
      → reset_password s raw_email code password w ≡ (
          let (r, w') = register_reset_failure s key w in
          elim r [
            | ok _ ↦ (err (bad_request "Invalid or expired verification code"), w')
            | err e ↦ (err e, w')
          ])
  unfolding reset_password
  reset_password_wrong code password w wrong = ground (arith, wrong)

  not_matching :
      (c : ℕ) (kept g : Text) (w : World s)
      → stored s laws key w ≡ some (c ∷ kept)
      → constant_time_equal (c ∷ kept) g ≡ false
      → matches (truthy (stored s laws key w)) g ≡ false
  unfolding truthy
  not_matching c kept g w held wrong = ground (arith, held, wrong)

  nothing_matches :
      (g : Text) (w : World s)
      → stored s laws key w ≡ none
      → matches (truthy (stored s laws key w)) g ≡ false
  unfolding truthy
  nothing_matches g w gone = ground (arith, gone)

  apart : text_eq key (attempts key) ≡ false
  apart = text_eq-append key b':' (codes "attempts")

  apart' : text_eq (attempts key) key ≡ false
  apart' = text_eq-append' key b':' (codes "attempts")

  module _ (users : TableLaws Fits s.users) where
    -- A submitted code that equals the stored reset code, for an address that has an account, sets
    -- the hash of the new password, removes the refresh token, and removes the code and the count
    -- of failures.
    pub reset_password_lem :
        (code password : Text) (w : World s) (kept : Text) (u : User)
        → truthy (stored s laws key w) ≡ some kept
        → constant_time_equal kept code ≡ true
        → find_by_email s.users email w.db ≡ some u
        → let (r, w') = reset_password s raw_email code password w in
          (r ≡ ok tt)
          × (find_by_email s.users email w'.db
              ≡ some (
                  set_refresh_token
                    (w.moment + 1 + 1)
                    none
                    (set_password (w.moment + 1) (s.hash password bcrypt_salt_rounds w.moment) u)))
          × (stored s laws key w' ≡ none)
          × (failures s laws key w' ≡ 0)
    reset_password_lem code password w kept u held right found =
        let e = reset_password_right code password w kept u held right found in
        let hash = s.hash password bcrypt_salt_rounds w.moment in
        let changed = Users.update_password s.users (w.moment + 1) email hash w.db in
        let one =
          find_by_email-update_password s.users users (w.moment + 1) email hash w.db found in
        let first = (s.redis.del key w.store).1 in
        (
          (λ i. (e i).0),
          (λ i. find_by_email s.users email (e i).1.db)
              ∙ find_by_email-update_refresh_token s.users users (w.moment + 1 + 1) email none
                  changed one,
          (λ i. s.redis.get key (e i).1.store)
              ∙ laws.get-del (attempts key) key first
              ∙ ground (arith, apart', laws.get-del key key w.store, text_eq_refl key),
          (λ i. s.redis.counter (attempts key) (e i).1.store)
              ∙ laws.counter-del (attempts key) (attempts key) first
              ∙ ground (arith, text_eq_refl (attempts key)),
        )

  module _ (ttl : ℕ) (set : s.config redis_ttl ≡ number ttl) (positive : 0 < ttl) where
    -- Where a positive lifetime of codes is configured, a reset whose code does not match is
    -- refused with one answer, and its failure is counted: at the maximum it burns the code.
    pub reset_password_refused :
        (code password : Text) (w : World s)
        → matches (truthy (stored s laws key w)) code ≡ false
        → ((reset_password s raw_email code password w).0
            ≡ err (bad_request "Invalid or expired verification code"))
          × CountsFailure s laws key w (reset_password s raw_email code password w).1
    reset_password_refused code password w wrong =
        let e = reset_password_wrong code password w wrong in
        let f = register_reset_failure_lem s laws key ttl w set positive in
        (ground (arith, e, f.0), ground (arith, e, f))

    -- Where a positive lifetime of codes is configured: of wrong codes against a stored reset code
    -- that is not empty, with no failure counted, fewer than the configured maximum leave the
    -- stored code in place and as many or more burn it; none changes an account.
    pub reset_password_guesses :
        (password : Text) (guesses : List Text) (w : World s) (c : ℕ) (kept : Text)
        → stored s laws key w ≡ some (c ∷ kept)
        → All (λ g. constant_time_equal (c ∷ kept) g ≡ false) guesses
        → failures s laws key w ≡ 0
        → let w' = tries (λ g. reset_password s raw_email g password) guesses w in
          (stored s laws key w' ≡ (
            if leb (config_number s otp_max_attempts) (length guesses)
            then none
            else some (c ∷ kept)))
          × (w'.db ≡ w.db)
    reset_password_guesses password guesses w c kept held bad none_yet =
        let main =
          tries_lem s laws key (c ∷ kept) (λ g. reset_password s raw_email g password)
            (λ g. constant_time_equal (c ∷ kept) g ≡ false)
            (λ g v wrong here.
              (reset_password_refused g password v (not_matching c kept g v here wrong)).1)
            (λ g v gone.
              let r = (reset_password_refused g password v (nothing_matches g v gone)).1 in
              (ground (arith, r.0, gone), r.2))
            guesses w bad held
            (omega (arith, none_yet, config_number_positive s otp_max_attempts (omega arith))) in
        (ground (arith, main.0, none_yet), main.1)
