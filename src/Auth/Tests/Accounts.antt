-- ===== src/Auth/Tests/Accounts.antt =====
-- Runs of the login, of the password reset and of the other methods on accounts.
use nestjs_boilerplate.Base.{
  ◌≡◌, ◌⊎◌, refl, true, false, Option, none, some, [], ◌∷◌, Text, codes, ok, err, Exception, arith,
  text_eq, if◌then◌else◌, leb,
}
use nestjs_boilerplate.Shared.Redis.Memory.{memory, memory-Laws}
use nestjs_boilerplate.Shared.Users.{
  User, find_by_email, truthy, column_eq, set_refresh_token, set_password,
}
use nestjs_boilerplate.Auth.Normalize.{normalize_email, normalize_phone}
use nestjs_boilerplate.Auth.Sessions.{reset_password_key}
use nestjs_boilerplate.Auth.Services.{World, get_config_number}
use nestjs_boilerplate.Auth.Limits.{constant_time_equal}
use nestjs_boilerplate.Auth.Limits.Utf8.{utf8}
use nestjs_boilerplate.Auth.Limits.Attempts.{stored, failures}
use nestjs_boilerplate.Auth.Limits.BruteForce.{tries}
use nestjs_boilerplate.Auth.Tokens.{to_safe_user}
use nestjs_boilerplate.Auth.Tokens.Rotation.{issued, rotated}
use nestjs_boilerplate.Auth.Accounts.{LoginInput, login, reset_password, forgot_password, matches}
use nestjs_boilerplate.Auth.Accounts.Login.{HasCredentials, SameAccounts, login_decides}
use nestjs_boilerplate.Auth.Accounts.Reset.{reset_password_lem, reset_password_guesses}
use nestjs_boilerplate.Auth.Accounts.Enumeration.{forgot_password_uniform}
use nestjs_boilerplate.Auth.Tests.Sample.{
  sample, whole, jwt, users-TableLaws, start, alice, alice_email, alice_password,
}

abbrev request : LoginInput
request = record { email = codes " A@B.c"; password = alice_password }

abbrev account : Option User
account = find_by_email sample.users (normalize_email sample.wide_lower request.email) start.db

login_decides_example :
    ((u : User) × HasCredentials sample account alice_password u
      × (login sample request start ≡ (
        ok (record {
          access_token = (issued sample (jwt whole) u start.moment).access_token;
          refresh_token = (issued sample (jwt whole) u start.moment).refresh_token;
          user = to_safe_user u;
        }),
        rotated sample (jwt whole) u start,
      )))
    ⊎ (((u : User) → ¬ (HasCredentials sample account alice_password u))
        × ((e : Exception) × ((login sample request start).0 ≡ err e))
        × SameAccounts sample start (login sample request start).1)
login_decides_example = login_decides sample (jwt whole) request start

abbrev guess : Text
guess = codes "wp"

kept_password : truthy (alice whole).password ≡ some (120 ∷ alice_password)
unfolding truthy
kept_password = refl

wrong_password : sample.compare guess (120 ∷ alice_password) ≡ false
unfolding text_eq
wrong_password = refl

-- A reset code is stored for Alice.
abbrev code : Text
code = codes "004321"

abbrev key : Text
key = reset_password_key (normalize_email sample.wide_lower alice_email)

abbrev asked : World sample
asked = record start { store = memory.set_ex key code 300 start.store }

held : stored sample memory-Laws key asked ≡ some code
unfolding text_eq normalize_email
held = refl

kept_code : truthy (stored sample memory-Laws key asked) ≡ some code
unfolding text_eq truthy normalize_email
kept_code = refl

right : constant_time_equal code code ≡ true
unfolding constant_time_equal text_eq utf8
right = refl

found :
    find_by_email sample.users (normalize_email sample.wide_lower alice_email) asked.db
    ≡ some (alice whole)
unfolding find_by_email column_eq text_eq normalize_email
found = refl

wrong : constant_time_equal code guess ≡ false
unfolding constant_time_equal text_eq utf8
wrong = refl

refused : matches (truthy (stored sample memory-Laws key asked)) guess ≡ false
unfolding constant_time_equal text_eq utf8 truthy normalize_email
refused = refl

reset_password_lem_example :
    let (r, w') = reset_password sample alice_email code guess asked in
    (r ≡ ok tt)
    × (find_by_email sample.users (normalize_email sample.wide_lower alice_email) w'.db
        ≡ some
            (set_refresh_token 12 none (set_password 11 (sample.hash guess 12 10) (alice whole))))
    × (stored sample memory-Laws key w' ≡ none)
    × (failures sample memory-Laws key w' ≡ 0)
reset_password_lem_example =
    reset_password_lem sample memory-Laws alice_email users-TableLaws code guess asked code
      (alice whole) kept_code right found

reset_password_guesses_example :
    let w' = tries (λ g. reset_password sample alice_email g guess) (guess ∷ []) asked in
    (stored sample memory-Laws key w' ≡ (if leb 5 1 then none else some code)) × (w'.db ≡ asked.db)
unfolding get_config_number
reset_password_guesses_example =
    reset_password_guesses sample memory-Laws alice_email 300 refl (omega arith) guess (guess ∷ [])
      asked b'0' (codes "04321") held (wrong, tt) refl

forgot_password_uniform_example :
    ((forgot_password sample alice_email start).0 ≡ ok tt)
    × ((forgot_password sample alice_email start).1.db ≡ start.db)
forgot_password_uniform_example =
    forgot_password_uniform sample memory-Laws 300 alice_email start refl

abbrev phone : Text
phone = codes " +44 (20) 7946-0958"

accepted : normalize_phone phone ≡ ok (codes "+442079460958")
unfolding normalize_phone
accepted = refl
