-- ===== src/Auth/Tokens/Rotation.antt =====
-- Refresh tokens of src/modules/platform/auth/auth.service.ts: what `refresh` requires and what it leaves
-- behind, and whether a token serves twice.
use nestjs_boilerplate.Base.{
  ℕ, ◌+◌, ◌≡◌, ◌≢◌, refl, true, some, Text, Result, ok, err, unauthorized, arith, Bool-cases,
  Option-cases, inl, inr, ◌∙◌, ap, sym, ◌⊎◌, [], ◌∷◌, take,
}
use nestjs_boilerplate.Shared.Table.{TableLaws}
use nestjs_boilerplate.Shared.Users.{User, Fits, truthy, find_by_id, set_refresh_token}
use nestjs_boilerplate.Shared.Users
use nestjs_boilerplate.Shared.Users.Laws.{find_by_id_sound, find_by_id-update_refresh_token}
use nestjs_boilerplate.Auth.Limits.Utf8.{utf8}
use nestjs_boilerplate.Auth.Sessions.{
  bcrypt_salt_rounds, jwt_secret, jwt_expiration, jwt_refresh_expiration,
}
use nestjs_boilerplate.Auth.Services.{Services, World, JwtPayload, string_of, string}
use nestjs_boilerplate.Auth.Tokens.{
  RefreshResponse, generate_tokens, update_refresh_token, refresh_attempt, refresh,
}

module _ (s : Services) where
  abbrev secret_of : Result Text
  secret_of = string_of (s.config jwt_secret)

  -- The deployment sets the secret and the lifetimes of the tokens.
  pub record JwtConfig : Type 0 where
    pub secret : Text
    pub expiration : Text
    pub refresh_expiration : Text
    pub has_secret : s.config jwt_secret ≡ string secret
    pub has_expiration : s.config jwt_expiration ≡ string expiration
    pub has_refresh_expiration : s.config jwt_refresh_expiration ≡ string refresh_expiration

module _ (s : Services) (c : JwtConfig s) where
  abbrev payload_of : User → JwtPayload
  payload_of u = record { sub = u.id; email = u.email }

  abbrev pub issued : User → ℕ → RefreshResponse
  issued u moment = record {
    access_token = s.sign (payload_of u) c.expiration c.secret moment;
    refresh_token = s.sign (payload_of u) c.refresh_expiration c.secret moment;
  }

  -- The state behind an issue of tokens at `w`: the hash of the refresh token is stored.
  abbrev pub rotated : User → World s → World s
  rotated u w = record w {
    db =
        Users.update_refresh_token s.users (w.moment + 1 + 1) u.id
          (some (s.hash (issued u w.moment).refresh_token bcrypt_salt_rounds (w.moment + 1))) w.db;
    moment = w.moment + 1 + 1 + 1;
  }

  -- What `refresh` requires of a token: it verifies, it names a user, and it matches the hash that
  -- is stored for the user.
  pub record IsLive (token : Text) (w : World s) : Type 0 where
    pub payload : JwtPayload
    pub user : User
    pub stored : Text
    pub verified : s.verify token c.secret w.moment ≡ some payload
    pub found : find_by_id s.users payload.sub w.db ≡ some user
    pub kept : truthy user.refresh_token ≡ some stored
    pub matches : s.compare token stored ≡ true

  abbrev pub later : World s → World s
  later w = record w { moment = w.moment + 1 }

  pub refresh_live :
      (token : Text) (w : World s) (l : IsLive token w)
      → refresh s token w ≡ (ok (issued l.user (w.moment + 1)), rotated l.user (later w))
  unfolding refresh refresh_attempt generate_tokens update_refresh_token
  refresh_live token w l = ground (
    arith, c.has_secret, c.has_expiration, c.has_refresh_expiration, l.verified, l.found, l.kept,
    l.matches,
  )

  -- A refresh finds the token live, or it is refused with one and the same answer, which does not
  -- say why, and no user is changed.
  refresh_cases :
      (token : Text) (w : World s)
      → IsLive token w
        ⊎ (((refresh s token w).0 ≡ err (unauthorized "Invalid or expired refresh token"))
            × ((refresh s token w).1.db ≡ w.db))
  unfolding refresh refresh_attempt
  refresh_cases token w = elim (Option-cases (s.verify token c.secret w.moment)) [
    | inl bad ↦ inr (ground (arith, c.has_secret, bad), ground (arith, c.has_secret, bad))
    | inr (payload, verified) ↦ elim (Option-cases (find_by_id s.users payload.sub w.db)) [
      | inl missing ↦ inr (
        ground (arith, c.has_secret, verified, missing),
        ground (arith, c.has_secret, verified, missing),
      )
      | inr (user, found) ↦ elim (Option-cases (truthy user.refresh_token)) [
        | inl none_kept ↦ inr (
          ground (arith, c.has_secret, verified, found, none_kept),
          ground (arith, c.has_secret, verified, found, none_kept),
        )
        | inr (stored, kept) ↦ elim (Bool-cases (s.compare token stored)) [
          | inl matches ↦ inl (record {
            payload = payload;
            user = user;
            stored = stored;
            verified = verified;
            found = found;
            kept = kept;
            matches = matches;
          })
          | inr differs ↦ inr (
            ground (arith, c.has_secret, verified, found, kept, differs),
            ground (arith, c.has_secret, verified, found, kept, differs),
          )
        ]
      ]
    ]
  ]

  -- With the secret and the lifetimes of tokens configured: either the refresh token is live (it
  -- verifies, names a user and matches the user's stored hash): then `refresh` issues a pair of
  -- tokens and stores the hash of the new refresh token. Or it is not: then `refresh` gives one and
  -- the same answer, and no user is changed.
  pub refresh_decides :
      (token : Text) (w : World s)
      → ((l : IsLive token w) × (refresh s token w
            ≡ (ok (issued l.user (w.moment + 1)), rotated l.user (later w))))
        ⊎ ((¬ (IsLive token w))
            × ((refresh s token w).0 ≡ err (unauthorized "Invalid or expired refresh token"))
            × ((refresh s token w).1.db ≡ w.db))
  refresh_decides token w = elim (refresh_cases token w) [
    | inl live ↦ inl (live, refresh_live token w live)
    | inr (refused, same) ↦ inr ((λ live. cc (refresh_live token w live)), refused, same)
  ]

module _ (s : Services) (c : JwtConfig s) where
  -- The claims of a token stand in its text: two verifications that succeed read the same ones. An
  -- expired token does not verify.
  abbrev pub ReadsOne : Type 0
  ReadsOne =
      (token : Text) (m n : ℕ) (p q : JwtPayload)
      → s.verify token c.secret m ≡ some p
      → s.verify token c.secret n ≡ some q
      → p ≡ q

  -- bcrypt tells texts apart by the first 72 bytes that they have in UTF-8.
  abbrev pub TellsPrefix : Type 0
  TellsPrefix =
      (p q : Text) (rounds m : ℕ)
      → s.compare p (s.hash q rounds m) ≡ true
      → take 72 (utf8 p) ≡ take 72 (utf8 q)

pub truthy_nonempty : (v : Text) → v ≢ [] → truthy (some v) ≡ some v
unfolding truthy
truthy_nonempty [] h = absurd (h refl)
truthy_nonempty (c ∷ v) h = refl

module _ (s : Services) (c : JwtConfig s) (users : TableLaws Fits s.users) where
  -- The user behind a token, after the rotation.
  pub rotated_user :
      (token : Text) (w : World s) (l : IsLive s c token w)
      → find_by_id s.users l.payload.sub (rotated s c l.user (later s c w)).db
        ≡ some (
            set_refresh_token
              (w.moment + 1 + 1 + 1)
              (some (
                s.hash
                  (issued s c l.user (w.moment + 1)).refresh_token
                  bcrypt_salt_rounds
                  (w.moment + 1 + 1)))
              l.user)
  rotated_user token w l =
      let same : l.user.id ≡ l.payload.sub =
        find_by_id_sound s.users users l.payload.sub w.db l.found in
      ap (λ (n : ℕ). find_by_id s.users n (rotated s c l.user (later s c w)).db) (sym same)
      ∙ find_by_id-update_refresh_token s.users users (w.moment + 1 + 1 + 1) l.user.id _ w.db
          {u = l.user} (ap (λ (n : ℕ). find_by_id s.users n w.db) same ∙ l.found)
