-- ===== src/Auth/Tests/Sample.antt =====
-- Packages and services with concrete behaviour, and a state with one account.
use nestjs_boilerplate.Base.{
  ℕ, ◌≡◌, ◌≢◌, refl, ◌==◌, ◌||◌, Bool, true, false, Option, none, some, [], ◌∷◌, ◌++◌, Text, codes,
  text_eq, length, take, drop, arith, if◌then◌else◌, ok, ap,
}
use nestjs_boilerplate.Shared.Redis.Memory.{memory, empty}
use nestjs_boilerplate.Shared.Table.{TableLaws}
use nestjs_boilerplate.Shared.Table.Listed.{listed, listed-TableLaws}
use nestjs_boilerplate.Shared.Users.{User, NewUser, Fits, UserTable, column_eq}
use nestjs_boilerplate.Auth.Sessions.{
  Session, ConfigKey, jwt_secret, jwt_expiration, jwt_refresh_expiration, redis_ttl, node_env,
  debug_return_otp,
}
use nestjs_boilerplate.Auth.Services.{
  Services, World, ConfigValue, undefined, number, string, JwtPayload,
}
use nestjs_boilerplate.Auth.Verification.Soundness.{JsonLaws}
use nestjs_boilerplate.Auth.Tokens.Rotation.{JwtConfig}

abbrev build_user : ℕ → NewUser → User
build_user n new = record {
  id = n;
  email = new.email;
  phone = new.phone;
  password = new.password;
  first_name = new.first_name;
  last_name = new.last_name;
  is_active = new.is_active;
  refresh_token = none;
  provider = new.provider;
  provider_id = new.provider_id;
  picture = new.picture;
  email_verified = new.email_verified;
  phone_verified = new.phone_verified;
  created_at = 0;
  updated_at = 0;
}

-- The unique columns.
abbrev clashes_at : Option Text → Option Text → Bool
clashes_at none column = false
clashes_at (some v) column = column_eq column v

abbrev clashes : NewUser → User → Bool
clashes new u = clashes_at new.email u.email || clashes_at new.phone u.phone

abbrev pub users : UserTable
users = listed build_user clashes

pub users-TableLaws : TableLaws Fits users
users-TableLaws = listed-TableLaws build_user clashes Fits (λ n new. record {
  email = refl;
  phone = refl;
  password = refl;
  first_name = refl;
  last_name = refl;
  is_active = refl;
  refresh_token = refl;
  email_verified = refl;
  phone_verified = refl;
})

abbrev config : ConfigKey → ConfigValue
config jwt_secret = string (codes "secret")
config jwt_expiration = string (codes "15m")
config jwt_refresh_expiration = string (codes "7d")
config redis_ttl = number 300
config node_env = string (codes "development")
config debug_return_otp = string (codes "true")
config _ = undefined

-- A payload is written with its first text behind the length of that text.
abbrev pair : ℕ → Text → ℕ → Text → Text
pair tag a n b = tag ∷ n ∷ length a ∷ a ++ b

abbrev stringify : Session → Text
stringify (Session.email_verify email user_id otp) = pair 1 email user_id otp
stringify (Session.email_login email user_id otp) = pair 2 email user_id otp
stringify (Session.phone_register phone hashed otp) =
    3 ∷ length phone ∷ length hashed ∷ phone ++ (hashed ++ otp)
stringify (Session.phone_login phone user_id otp) = pair 4 phone user_id otp
stringify Session.other = 5 ∷ []

abbrev fields : ℕ → ℕ → ℕ → Text → Option Session
fields tag n l t =
    if tag == 1
    then some (Session.email_verify (take l t) n (drop l t))
    else if tag == 2
    then some (Session.email_login (take l t) n (drop l t))
    else if tag == 3
    then some (Session.phone_register (take n t) (take l (drop n t)) (drop l (drop n t)))
    else some (Session.phone_login (take l t) n (drop l t))

abbrev parse : Text → Option Session
parse (tag ∷ n ∷ l ∷ t) = fields tag n l t
parse (tag ∷ []) = some Session.other
parse _ = none

take-append : (a b : Text) → take (length a) (a ++ b) ≡ a
take-append [] b = ground arith
take-append (c ∷ a) b = ap (λ (t : Text). c ∷ t) (take-append a b)

drop-append : (a b : Text) → drop (length a) (a ++ b) ≡ b
drop-append [] b = ground arith
drop-append (c ∷ a) b = drop-append a b

-- A hash that keeps the whole text, and its comparison.
abbrev pub whole : Text → Text
whole t = t

abbrev compare_with : (Text → Text) → Text → Text → Bool
compare_with reads password [] = false
compare_with reads password (c ∷ kept) = text_eq (reads password) kept

-- A token is a head of 72 units, the user's id and the moment of its issue.
abbrev head : Text
head = codes "eyJhbGciOiJIUzI1NiIsInR5cCI6IkpXVCJ9.eyJzdWIiOjEsImVtYWlsIjoiYUBiLmMiLCJ"

abbrev verify_tail : Text → Option JwtPayload
verify_tail (sub ∷ m ∷ []) = some (record { sub = sub; email = none })
verify_tail _ = none

-- The services, for a hash that keeps `reads` of a text.
abbrev pub services : (Text → Text) → Services
services reads = record {
  redis = memory;
  users = users;
  config = config;
  hash = λ text rounds m. 120 ∷ reads text;
  compare = compare_with reads;
  random_uuid = λ m. codes "uuid" ++ (m ∷ []);
  random_int = λ max m. 4321;
  sign = λ p expiry secret m. head ++ (p.sub ∷ m ∷ []);
  verify = λ token secret m. verify_tail (drop 72 token);
  verify_google = λ token audience m. ok none;
  verify_apple = λ token audience m. ok none;
  stringify = stringify;
  parse = parse;
  wide_lower = λ t. t;
  enqueue_accepts = λ job m. true;
  send_accepts = λ to text m. true;
}

abbrev pub sample : Services
sample = services whole

parse-stringify : (session : Session) → parse (stringify session) ≡ some session
parse-stringify (Session.email_verify e u o) = rw (take-append e o, drop-append e o) refl
parse-stringify (Session.email_login e u o) = rw (take-append e o, drop-append e o) refl
parse-stringify (Session.phone_register p h o) =
    rw (take-append p (h ++ o), drop-append p (h ++ o), take-append h o, drop-append h o) refl
parse-stringify (Session.phone_login p u o) = rw (take-append p o, drop-append p o) refl
parse-stringify Session.other = refl

stringify_nonempty : (session : Session) → stringify session ≢ []
stringify_nonempty (Session.email_verify e u o) h = ground arith
stringify_nonempty (Session.email_login e u o) h = ground arith
stringify_nonempty (Session.phone_register p k o) h = ground arith
stringify_nonempty (Session.phone_login p u o) h = ground arith
stringify_nonempty Session.other h = ground arith

pub sample-JsonLaws : JsonLaws sample
sample-JsonLaws = record {
  parse-stringify = parse-stringify;
  stringify_nonempty = stringify_nonempty;
}

abbrev pub jwt : (reads : Text → Text) → JwtConfig (services reads)
jwt reads = record {
  secret = codes "secret";
  expiration = codes "15m";
  refresh_expiration = codes "7d";
  has_secret = refl;
  has_expiration = refl;
  has_refresh_expiration = refl;
}

abbrev pub alice_email : Text
alice_email = codes "a@b.c"

abbrev pub alice_password : Text
alice_password = codes "pw"

-- An account whose refresh token was issued at moment 5.
abbrev pub alice_token : Text
alice_token = head ++ (1 ∷ 5 ∷ [])

abbrev pub alice : (Text → Text) → User
alice reads = record {
  id = 1;
  email = some alice_email;
  phone = none;
  password = some (120 ∷ reads alice_password);
  first_name = none;
  last_name = none;
  is_active = true;
  refresh_token = some (120 ∷ reads alice_token);
  provider = none;
  provider_id = none;
  picture = none;
  email_verified = false;
  phone_verified = false;
  created_at = 0;
  updated_at = 0;
}

abbrev pub world : (reads : Text → Text) → World (services reads)
world reads = record {
  store = empty;
  db = record { serial = 2; list = alice reads ∷ [] };
  moment = 10;
  google_client = none;
  dummy_password_hash = none;
  outbox = [];
  messages = [];
}

abbrev pub start : World sample
start = world whole
