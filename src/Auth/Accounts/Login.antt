-- ===== src/Auth/Accounts/Login.antt =====
-- `login` of src/modules/platform/auth/auth.service.ts: whom it signs in, and what it reveals.
use nestjs_boilerplate.Base.{
  ◌≡◌, refl, true, false, Option, none, some, Text, ok, err, Exception, unauthorized, arith,
  Bool-cases, Option-cases, inl, inr, ◌⊎◌,
}
use nestjs_boilerplate.Shared.Users.{User, truthy, find_by_email}
use nestjs_boilerplate.Auth.Normalize.{normalize_email}
use nestjs_boilerplate.Auth.Services.{Services, World}
use nestjs_boilerplate.Auth.Tokens.{to_safe_user, generate_tokens, update_refresh_token}
use nestjs_boilerplate.Auth.Tokens.Rotation.{JwtConfig, issued, rotated}
use nestjs_boilerplate.Auth.Accounts.{LoginInput, dummy_password_compare, check_credentials, login}

module _ (s : Services) where
  -- What the checks require of the account that was found for a login.
  pub record HasCredentials (found : Option User) (password : Text) (u : User) : Type 0 where
    pub stored : Text
    pub is_found : found ≡ some u
    pub active : u.is_active ≡ true
    pub kept : truthy u.password ≡ some stored
    pub matches : s.compare password stored ≡ true

  -- The only state that the checks may change is the hash that they compare an unknown account's
  -- password with.
  abbrev pub SameAccounts : World s → World s → Type 0
  SameAccounts w w' = (w'.db ≡ w.db) × (w'.store ≡ w.store) × (w'.outbox ≡ w.outbox)

  dummy_password_compare_same :
      (password : Text) (w : World s)
      → ((dummy_password_compare s password w).0 ≡ ok tt)
        × SameAccounts w (dummy_password_compare s password w).1
  unfolding dummy_password_compare
  dummy_password_compare_same password w = ground arith

  pub check_credentials_decides :
      (found : Option User) (password : Text) (w : World s)
      → ((u : User) × HasCredentials found password u
          × (check_credentials s found password w ≡ (ok u, w)))
        ⊎ (((u : User) → ¬ (HasCredentials found password u))
            × ((e : Exception) × ((check_credentials s found password w).0 ≡ err e))
            × SameAccounts w (check_credentials s found password w).1)
  unfolding check_credentials
  check_credentials_decides none password w =
      let dummy = dummy_password_compare_same password w in
      inr (
        (λ u h. cc (h.is_found)),
        (unauthorized "Invalid credentials", ground (arith, dummy)),
        ground (arith, dummy),
      )
  check_credentials_decides (some u) password w = elim (Bool-cases u.is_active) [
    | inr inactive ↦ inr (
      (λ v h. ground (arith, h.is_found, h.active)),
      (unauthorized "User is not active", ground arith),
      ground arith,
    )
    | inl active ↦ elim (Option-cases (truthy u.password)) [
      | inl social ↦ inr (
        (λ v h. ground (arith, h.is_found, h.kept)),
        (unauthorized "This account uses social login", ground arith),
        ground arith,
      )
      | inr (stored, kept) ↦ elim (Bool-cases (s.compare password stored)) [
        | inl matches ↦ inl (
          u,
          record {
            stored = stored;
            is_found = refl;
            active = active;
            kept = kept;
            matches = matches;
          },
          ground arith,
        )
        | inr differs ↦ inr (
          (λ v h. ground (arith, h.is_found, h.kept, h.matches)),
          (unauthorized "Invalid credentials", ground arith),
          ground arith,
        )
      ]
    ]
  ]

  -- Without the right password an active account with a password answers as an unknown address
  -- does.
  pub check_credentials_uniform :
      (u : User) (stored password : Text) (w v : World s)
      → u.is_active ≡ true
      → truthy u.password ≡ some stored
      → s.compare password stored ≡ false
      → (check_credentials s (some u) password w).0 ≡ (check_credentials s none password v).0
  unfolding check_credentials
  check_credentials_uniform u stored password w v active kept wrong =
      let dummy = dummy_password_compare_same password v in ground (arith, dummy)

module _ (s : Services) (c : JwtConfig s) where
  abbrev account : LoginInput → World s → Option User
  account dto w = find_by_email s.users (normalize_email s.wide_lower dto.email) w.db

  -- With the secret and the lifetimes of tokens configured: either the address belongs to an active
  -- account with the submitted password: then `login` answers with new tokens and the public part
  -- of the account and stores the hash of the new refresh token. Or it does not: then `login` is
  -- refused, and no account, key or mail is changed.
  pub login_decides :
      (dto : LoginInput) (w : World s)
      → ((u : User) × HasCredentials s (account dto w) dto.password u
          × (login s dto w ≡ (
            ok (record {
              access_token = (issued s c u w.moment).access_token;
              refresh_token = (issued s c u w.moment).refresh_token;
              user = to_safe_user u;
            }),
            rotated s c u w,
          )))
        ⊎ (((u : User) → ¬ (HasCredentials s (account dto w) dto.password u))
            × ((e : Exception) × ((login s dto w).0 ≡ err e))
            × SameAccounts s w (login s dto w).1)
  unfolding login generate_tokens update_refresh_token
  login_decides dto w = elim (check_credentials_decides s (account dto w) dto.password w) [
    | inl (u, has, checked) ↦
        inl (
          u,
          has,
          ground (arith, checked, c.has_secret, c.has_expiration, c.has_refresh_expiration),
        )
    | inr (lacks, (e, refused), same) ↦
        inr (lacks, (e, ground (arith, refused)), ground (arith, refused, same))
  ]
