-- ===== src/Auth/Services.antt =====
-- What the authentication service is built over: the packages and services that it calls are the
-- fields of `Services`, and `World` is the state that its methods read and write.
-- A call that depends on the time or on randomness takes the `moment`, a number that grows with
-- each such call; the clock is read off it too.
use nestjs_boilerplate.Base.{
  ℕ, ◌+◌, ltb, ◌&&◌, Bool, true, false, not, Option, none, some, List, ◌∷◌, Text, codes, text_eq,
  if◌then◌else◌, failure, Result, ok, err, Action,
}
use nestjs_boilerplate.Shared.Redis.{Server}
use nestjs_boilerplate.Shared.Users.{UserTable}
use nestjs_boilerplate.Shared.Otp.{generate_otp_code, otp_max}
use nestjs_boilerplate.Auth.Sessions.{Session, ConfigKey, otp_default, debug_return_otp, node_env}

-- A value of the configuration; `other` is a number that is not finite or not positive, or a value
-- that is neither a number nor a string.
pub data ConfigValue : Type 0 where
  undefined other : ConfigValue
  number : ℕ → ConfigValue
  string : Text → ConfigValue

abbrev pub string_of : ConfigValue → Result Text
string_of (string v) = ok v
string_of _ = err (failure "Configuration key does not exist")

abbrev pub number_of : ConfigValue → Result ℕ
number_of (number n) = ok n
number_of _ = err (failure "Configuration key does not exist")

-- `typeof value === 'number' && Number.isFinite(value) && value > 0 ? value : fallback`
abbrev pub positive_or : ConfigValue → ℕ → ℕ
positive_or (number n) fallback = if ltb 0 n then n else fallback
positive_or _ fallback = fallback

-- `value === text`
abbrev pub is_string : ConfigValue → Text → Bool
is_string (string v) text = text_eq v text
is_string _ text = false

pub record JwtPayload : Type 0 where
  pub sub : ℕ
  pub email : Option Text

-- What the identity providers' libraries return for a token.
pub record IdPayload : Type 0 where
  pub email : Option Text
  pub given_name : Option Text
  pub family_name : Option Text
  pub picture : Option Text
  pub sub : Text

pub data MailJob : Type 0 where
  password_reset verify_email otp : (to : Text) (code : Text) → MailJob

pub record Services : Type 1 where
  pub redis : Server
  pub users : UserTable
  pub config : ConfigKey → ConfigValue
  -- bcrypt
  pub hash : Text → ℕ → ℕ → Text
  pub compare : Text → Text → Bool
  -- crypto: `randomUUID`, and `randomInt(0, max)`
  pub random_uuid : ℕ → Text
  pub random_int : ℕ → ℕ → ℕ
  -- jsonwebtoken: the payload, the expiry and the secret
  pub sign : JwtPayload → Text → Text → ℕ → Text
  pub verify : Text → Text → ℕ → Option JwtPayload
  -- the identity providers: a token and the audience that it must be issued for
  pub verify_google : Text → Text → ℕ → Result (Option IdPayload)
  pub verify_apple : Text → Text → ℕ → Result (Option IdPayload)
  -- JSON
  pub stringify : Session → Text
  pub parse : Text → Option Session
  -- the Unicode case mapping of a string that is not ASCII
  pub wide_lower : Text → Text
  -- whether the mail queue and the SMS gateway take a message
  pub enqueue_accepts : MailJob → ℕ → Bool
  pub send_accepts : Text → Text → ℕ → Bool

module _ (s : Services) where
  pub record World : Type 0 where
    pub store : s.redis.Store
    pub db : s.users.Db
    pub moment : ℕ
    pub google_client : Option Text
    pub dummy_password_hash : Option Text
    -- what the queue and the gateway have taken, the newest first
    pub outbox : List MailJob
    pub messages : List (Text × Text)

module _ (s : Services) where
  abbrev pub Method : Type 0 → Type 0
  Method A = Action (World s) A

  -- The moment of this call; later calls have later ones.
  abbrev pub now : Method ℕ
  now w = (ok w.moment, record w { moment = w.moment + 1 })

  -- A command of the Redis service.
  abbrev pub redis : {A : Type 0} → (s.redis.Store → A × s.redis.Store) → Method A
  redis f w = let (a, store) = f w.store in (ok a, record w { store = store })

  abbrev pub redis_set : (s.redis.Store → s.redis.Store) → Method (Unit {0})
  redis_set f w = (ok tt, record w { store = f w.store })

  -- An update of the table of users.
  abbrev pub users_set : (ℕ → s.users.Db → s.users.Db) → Method (Unit {0})
  users_set f w = (ok tt, record w { db = f w.moment w.db; moment = w.moment + 1 })

  -- An insert, which a unique index may refuse by an exception.
  abbrev pub users_insert : {A : Type 0} → (ℕ → s.users.Db → Option (A × s.users.Db)) → Method A
  users_insert f w = elim (f w.moment w.db) [
    | none ↦ (err (failure "duplicate key value violates unique constraint"), w)
    | some (a, db) ↦ (ok a, record w { db = db; moment = w.moment + 1 })
  ]

  abbrev pub random_uuid : Method Text
  random_uuid w = (ok (s.random_uuid w.moment), record w { moment = w.moment + 1 })

  -- `generateOtpCode()`, of the default length
  abbrev pub otp_code : Method Text
  otp_code w =
      (generate_otp_code 6 (s.random_int (otp_max 6) w.moment), record w { moment = w.moment + 1 })

  -- `bcrypt.hash` and `bcrypt.compare`
  abbrev pub bcrypt_hash : Text → ℕ → Method Text
  bcrypt_hash text rounds w = (ok (s.hash text rounds w.moment), record w { moment = w.moment + 1 })

  -- `mailQueue.enqueue`, which rejects if the queue does not take the job
  abbrev pub enqueue : MailJob → Method (Unit {0})
  enqueue job w = elim (s.enqueue_accepts job w.moment) [
    | true ↦ (ok tt, record w { moment = w.moment + 1; outbox = job ∷ w.outbox })
    | false ↦ (err (failure "enqueue failed"), record w { moment = w.moment + 1 })
  ]

  -- `smsSender.send`
  abbrev pub send_sms : Text → Text → Method (Unit {0})
  send_sms to text w = elim (s.send_accepts to text w.moment) [
    | true ↦ (ok tt, record w { moment = w.moment + 1; messages = (to, text) ∷ w.messages })
    | false ↦ (err (failure "send failed"), record w { moment = w.moment + 1 })
  ]

  -- `configService.getOrThrow`, for a string and for a number
  abbrev pub get_or_throw : ConfigKey → Method Text
  get_or_throw key w = (string_of (s.config key), w)

  abbrev pub get_or_throw_number : ConfigKey → Method ℕ
  get_or_throw_number key w = (number_of (s.config key), w)

  -- getConfigNumber, at the fallbacks of AUTH_OTP_DEFAULTS
  unfoldable pub get_config_number : ConfigKey → ℕ → ℕ
  get_config_number key fallback = positive_or (s.config key) fallback

  abbrev pub config_number : ConfigKey → ℕ
  config_number key = get_config_number key (otp_default key)

  unfoldable pub should_echo_otp : Bool
  should_echo_otp =
      not (is_string (s.config node_env) (codes "production"))
      && is_string (s.config debug_return_otp) (codes "true")
