-- ===== src/Shared/Password.antt =====
-- src/modules/shared/common/utils/password.util.ts. `draw moment n` is `randomInt(n)`, and `moment`
-- grows with each draw.
pub mod Classes
mod Tests
use nestjs_boilerplate.Base.{
  ℕ, zero, suc, ◌+◌, ◌-◌, ◌==◌, leb, ◌&&◌, Bool, true, false, Option, none, some, List, [], ◌∷◌,
  ◌++◌, any, length, Text, codes, if◌then◌else◌,
}

abbrev pub lower_set : Text
lower_set = codes "abcdefghijklmnopqrstuvwxyz"

abbrev pub upper_set : Text
upper_set = codes "ABCDEFGHIJKLMNOPQRSTUVWXYZ"

abbrev pub digit_set : Text
digit_set = codes "0123456789"

abbrev pub special_set : Text
special_set = codes "!@#$%^&*"

abbrev pub all_set : Text
all_set = lower_set ++ (upper_set ++ (digit_set ++ special_set))

abbrev pub password_length : ℕ
password_length = 16

-- `xs[i]`; 0 stands for undefined, which is read at no index in range.
unfoldable pub get_at : ℕ → Text → ℕ
get_at i [] = 0
get_at zero (c ∷ s) = c
get_at (suc i) (c ∷ s) = get_at i s

-- `xs[i] = v`, for an index in range.
unfoldable pub set_at : ℕ → ℕ → Text → Text
set_at i v [] = []
set_at zero v (c ∷ s) = v ∷ s
set_at (suc i) v (c ∷ s) = c ∷ set_at i v s

-- `[chars[i], chars[j]] = [chars[j], chars[i]]`
unfoldable pub swap : ℕ → ℕ → Text → Text
swap i j s = set_at j (get_at i s) (set_at i (get_at j s) s)

module _ (draw : ℕ → ℕ → ℕ) where
  unfoldable pub pick : ℕ → Text → ℕ
  pick moment set = get_at (draw moment (length set)) set

  -- `while (chars.length < LENGTH) chars.push(pick(ALL))`, for the number of characters that are
  -- missing.
  unfoldable pub fill : ℕ → ℕ → Text
  fill zero moment = []
  fill (suc n) moment = pick moment all_set ∷ fill n (moment + 1)

  -- The loop from `i` down to 1.
  unfoldable pub shuffle : ℕ → ℕ → Text → Text
  shuffle zero moment chars = chars
  shuffle (suc i) moment chars =
      shuffle i (moment + 1) (swap (suc i) (draw moment (suc i + 1)) chars)

  abbrev pub guaranteed : ℕ → Text
  guaranteed moment =
      pick moment lower_set
      ∷ pick (moment + 1) upper_set
      ∷ pick (moment + 2) digit_set
      ∷ pick (moment + 3) special_set
      ∷ []

  unfoldable pub generate_strong_password : ℕ → Text
  generate_strong_password moment =
      let chars = guaranteed moment ++ fill (password_length - 4) (moment + 4) in
      shuffle (password_length - 1) (moment + 16) chars
