-- ===== src/Auth/Tests/Tokens.antt =====
-- Runs of the rotation of refresh tokens.
use nestjs_boilerplate.Base.{
  ℕ, ◌+◌, ◌≡◌, ◌≢◌, ◌⊎◌, refl, none, some, [], ◌∷◌, ◌++◌, Text, codes, ok, err, unauthorized,
  text_eq_refl, take,
}
use nestjs_boilerplate.Shared.Users.{User, find_by_id, truthy}
use nestjs_boilerplate.Auth.Services.{Services, World}
use nestjs_boilerplate.Auth.Limits.Utf8.{utf8}
use nestjs_boilerplate.Auth.Tokens.{RefreshResponse, refresh}
use nestjs_boilerplate.Auth.Tokens.Rotation.{IsLive, issued, rotated, refresh_decides}
use nestjs_boilerplate.Auth.Tokens.Replay.{ReadsPrefix, refresh_replay}
use nestjs_boilerplate.Auth.Tests.Sample.{
  services, whole, jwt, users-TableLaws, world, sample, start, alice, alice_token,
}

abbrev later : World sample → World sample
later w = record w { moment = w.moment + 1 }

refresh_decides_example :
    ((l : IsLive sample (jwt whole) alice_token start) × (refresh sample alice_token start ≡ (
      ok (issued sample (jwt whole) l.user 11),
      rotated sample (jwt whole) l.user (later start),
    )))
    ⊎ ((¬ (IsLive sample (jwt whole) alice_token start))
        × ((refresh sample alice_token start).0
            ≡ err (unauthorized "Invalid or expired refresh token"))
        × ((refresh sample alice_token start).1.db ≡ start.db))
refresh_decides_example = refresh_decides sample (jwt whole) alice_token start

-- bcrypt keeps the first 72 bytes.
abbrev first_bytes : Text → Text
first_bytes t = take 72 (utf8 t)

abbrev bcrypt : Services
bcrypt = services first_bytes

-- A token of before the change of the account's email address, which stands in the first bytes.
abbrev old_token : Text
old_token =
    codes "eyJhbGciOiJIUzI1NiIsInR5cCI6IkpXVCJ9.eyJzdWIiOjEsImVtYWlsIjoib0BiLmMiLCJ" ++ (1 ∷ 5 ∷ [])

abbrev renamed : User
renamed = record (alice first_bytes) { refresh_token = some (120 ∷ first_bytes old_token) }

abbrev before_use : World bcrypt
before_use = record (world first_bytes) { db = record { serial = 2; list = renamed ∷ [] } }

unfoldable old_live : IsLive bcrypt (jwt first_bytes) old_token before_use
unfolding find_by_id truthy
old_live = record {
  payload = record { sub = 1; email = none };
  user = renamed;
  stored = 120 ∷ first_bytes old_token;
  verified = refl;
  found = refl;
  kept = refl;
  matches = text_eq_refl (first_bytes old_token);
}

unfoldable bcrypt_live : IsLive bcrypt (jwt first_bytes) alice_token (world first_bytes)
unfolding find_by_id truthy
bcrypt_live = record {
  payload = record { sub = 1; email = none };
  user = alice first_bytes;
  stored = 120 ∷ first_bytes alice_token;
  verified = refl;
  found = refl;
  kept = refl;
  matches = text_eq_refl (first_bytes alice_token);
}

reads_prefix : ReadsPrefix bcrypt (jwt first_bytes)
reads_prefix p q rounds m e = rw e (text_eq_refl (first_bytes q))

nonempty : (q : Text) (rounds m : ℕ) → bcrypt.hash q rounds m ≢ []
nonempty q rounds m e = cc

agree :
    first_bytes alice_token
    ≡ first_bytes (issued bcrypt (jwt first_bytes) bcrypt_live.user 11).refresh_token
unfolding bcrypt_live utf8
agree = refl

valid : bcrypt.verify alice_token (codes "secret") 14 ≡ some bcrypt_live.payload
unfolding bcrypt_live
valid = refl

refresh_replay_example :
    (r : RefreshResponse) × ((refresh bcrypt alice_token
        (refresh bcrypt alice_token (world first_bytes)).1).0
      ≡ ok r)
refresh_replay_example =
    refresh_replay bcrypt (jwt first_bytes) users-TableLaws alice_token (world first_bytes)
      bcrypt_live reads_prefix nonempty agree valid
