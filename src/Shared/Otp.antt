-- ===== src/Shared/Otp.antt =====
-- src/modules/shared/common/utils/otp.util.ts: `generateOtpCode` and `getOtpExpiration`. The draw of
-- `randomInt(0, max)` is an argument, a number below `max`.
pub mod Laws
use nestjs_boilerplate.Base.{
  ℕ, zero, suc, ◌+◌, ◌-◌, ◌*◌, ◌/◌, ◌%◌, ◌^◌, ◌||◌, ltb, Option, none, some, List, [], ◌∷◌, ◌++◌,
  Text, length, if◌then◌else◌, Result, ok, err, failure,
}

-- `n.toString()` of a natural number. Every round divides by ten, so `suc n` rounds are enough.
decimal : ℕ → ℕ → Text
decimal zero n = []
decimal (suc fuel) n =
    let more = decimal fuel (n / 10) ++ (b'0' + n % 10) ∷ [] in
    if ltb n 10 then (b'0' + n) ∷ [] else more

unfoldable pub to_string : ℕ → Text
unfolding decimal
to_string n = decimal (suc n) n

abbrev pub replicate : ℕ → ℕ → Text
replicate zero c = []
replicate (suc n) c = c ∷ replicate n c

-- `s.padStart(width, c)` for a string `c` of one code unit
unfoldable pub pad_start : ℕ → ℕ → Text → Text
pad_start width c s = replicate (width - length s) c ++ s

-- The largest draw, `10 ** length`.
abbrev pub otp_max : ℕ → ℕ
otp_max len = 10 ^ len

unfoldable pub generate_otp_code : ℕ → ℕ → Result Text
unfolding to_string pad_start
generate_otp_code len draw =
    if ltb len 1 || ltb 10 len
    then err (failure "OTP length must be an integer in 1..10")
    else ok (pad_start len b'0' (to_string draw))

-- The moment at which a code issued at `now` expires, in milliseconds.
unfoldable pub get_otp_expiration : ℕ → ℕ → Result ℕ
get_otp_expiration now minutes =
    if ltb minutes 1
    then err (failure "OTP minutes must be a positive number")
    else ok (now + minutes * 60000)
