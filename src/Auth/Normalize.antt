-- ===== src/Auth/Normalize.antt =====
-- src/modules/platform/auth/auth.service.ts: `normalizeEmail` and `normalizePhone`, and the methods of
-- strings that they call.
pub mod Laws
use nestjs_boilerplate.Base.{
  ℕ, ◌+◌, ◌==◌, ltb, leb, ◌&&◌, ◌||◌, Bool, true, false, not, Option, none, some, List, [], ◌∷◌,
  ◌++◌, Text, length, filter, all, any, map, if◌then◌else◌, Result, ok, err, bad_request,
}
use mathlib.Core.List.{reverse}

-- White space and line ends, which `trim` strips.
unfoldable pub is_space : ℕ → Bool
is_space c =
    (leb 9 c && leb c 13)
    || any (λ d. c == d)
        (0x20 ∷ 0xa0 ∷ 0x1680 ∷ 0x2028 ∷ 0x2029 ∷ 0x202f ∷ 0x205f ∷ 0x3000 ∷ 0xfeff ∷ [])
    || (leb 0x2000 c && leb c 0x200a)

unfoldable pub trim_start : Text → Text
unfolding is_space
trim_start [] = []
trim_start (c ∷ s) = if is_space c then trim_start s else c ∷ s

unfoldable pub trim : Text → Text
unfolding trim_start
trim s = reverse (trim_start (reverse (trim_start s)))

unfoldable pub lower : ℕ → ℕ
lower c = if leb b'A' c && leb c b'Z' then c + 32 else c

-- `s.toLowerCase()`: on ASCII, the letters; `wide` is the Unicode mapping of any other string.
unfoldable pub to_lower_case : (Text → Text) → Text → Text
unfolding lower
to_lower_case wide s = if all (λ c. ltb c 128) s then map lower s else wide s

unfoldable pub normalize_email : (Text → Text) → Text → Text
unfolding trim to_lower_case
normalize_email wide email = to_lower_case wide (trim email)

unfoldable pub is_digit : ℕ → Bool
is_digit c = leb b'0' c && leb c b'9'

-- `s.replace(/(?!^\+)\D/g, '')`: a plus sign at the start stays, and all digits do.
unfoldable pub keep_plus_digits : Text → Text
unfolding is_digit
keep_plus_digits [] = []
keep_plus_digits (c ∷ s) =
    if c == b'+' || is_digit c then c ∷ filter is_digit s else filter is_digit s

unfoldable pub normalize_phone : Text → Result Text
unfolding trim keep_plus_digits is_digit
normalize_phone phone =
    let cleaned = keep_plus_digits (trim phone) in
    let digits = filter is_digit cleaned in
    if ltb (length digits) 8 || ltb 15 (length digits)
    then err (bad_request "Invalid phone number")
    else ok cleaned
