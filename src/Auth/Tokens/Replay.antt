-- ===== src/Auth/Tokens/Replay.antt =====
-- Refresh tokens of src/modules/platform/auth/auth.service.ts against a hash that reads a bounded part of
-- a text, as bcrypt does.
use nestjs_boilerplate.Base.{ℕ, ◌+◌, ◌≡◌, ◌≢◌, true, some, Text, ok, take, ◌∙◌, ap, sym, []}
use nestjs_boilerplate.Shared.Table.{TableLaws}
use nestjs_boilerplate.Shared.Users.{Fits, set_refresh_token}
use nestjs_boilerplate.Auth.Limits.Utf8.{utf8}
use nestjs_boilerplate.Auth.Sessions.{bcrypt_salt_rounds}
use nestjs_boilerplate.Auth.Services.{Services, World}
use nestjs_boilerplate.Auth.Tokens.{RefreshResponse, refresh}
use nestjs_boilerplate.Auth.Tokens.Rotation.{
  JwtConfig, issued, rotated, IsLive, refresh_live, later, rotated_user, truthy_nonempty,
}

module _ (s : Services) (c : JwtConfig s) where
  -- bcrypt reads 72 bytes of a text, and no more.
  abbrev pub ReadsPrefix : Type 0
  ReadsPrefix =
      (p q : Text) (rounds m : ℕ)
      → take 72 (utf8 p) ≡ take 72 (utf8 q)
      → s.compare p (s.hash q rounds m) ≡ true

module _ (s : Services) (c : JwtConfig s) (users : TableLaws Fits s.users) where
  -- With the secret and the lifetimes of tokens configured: if the hash reads 72 bytes of a text
  -- only and is never empty, a refresh token that agrees with its successor in these bytes, and
  -- that still verifies, is accepted again after its use.
  pub refresh_replay :
      (token : Text) (w : World s) (l : IsLive s c token w)
      → ReadsPrefix s c
      → ((q : Text) (rounds m : ℕ) → s.hash q rounds m ≢ [])
      → take 72 (utf8 token) ≡ take 72 (utf8 (issued s c l.user (w.moment + 1)).refresh_token)
      → s.verify token c.secret (refresh s token w).1.moment ≡ some l.payload
      → (r : RefreshResponse) × ((refresh s token (refresh s token w).1).0 ≡ ok r)
  refresh_replay token w l prefix nonempty agree valid =
      let e = refresh_live s c token w l in
      let w' = rotated s c l.user (later s c w) in
      let new = (issued s c l.user (w.moment + 1)).refresh_token in
      let hash = s.hash new bcrypt_salt_rounds (w.moment + 1 + 1) in
      let again : IsLive s c token w' = record {
        payload = l.payload;
        user = set_refresh_token (w.moment + 1 + 1 + 1) (some hash) l.user;
        stored = hash;
        verified =
            ap (λ (v : World s). s.verify token c.secret v.moment) (λ i. (sym e i).1) ∙ valid;
        found = rotated_user s c users token w l;
        kept = truthy_nonempty hash (nonempty new bcrypt_salt_rounds (w.moment + 1 + 1));
        matches = prefix token new bcrypt_salt_rounds (w.moment + 1 + 1) agree;
      } in
      (
        issued s c again.user (w'.moment + 1),
        ap (λ v. (refresh s token v).0) (λ i. (e i).1)
            ∙ (λ i. (refresh_live s c token w' again i).0),
      )
