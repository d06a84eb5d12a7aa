-- ===== src/Auth/Limits/Utf8.antt =====
-- `Buffer.from(text, 'utf8')`: the UTF-8 encoding of a string of UTF-16 code units, with the
-- replacement character for a surrogate that has no partner.
use nestjs_boilerplate.Base.{
  ℕ, ◌+◌, ◌-◌, ◌*◌, ◌/◌, ◌%◌, ◌≡◌, refl, ltb, leb, ◌&&◌, Bool, true, Option, none, some, List, [],
  ◌∷◌, ◌++◌, Text, all, if◌then◌else◌, arith,
}

abbrev is_high : ℕ → Bool
is_high c = leb 0xd800 c && leb c 0xdbff

abbrev is_low : ℕ → Bool
is_low c = leb 0xdc00 c && leb c 0xdfff

abbrev replacement : List ℕ
replacement = 0xef ∷ 0xbf ∷ 0xbd ∷ []

-- A code unit outside the surrogates.
encode_unit : ℕ → List ℕ
encode_unit c =
    if ltb c 0x80
    then c ∷ []
    else if ltb c 0x800
    then (0xc0 + c / 64) ∷ (0x80 + c % 64) ∷ []
    else (0xe0 + c / 4096) ∷ (0x80 + c / 64 % 64) ∷ (0x80 + c % 64) ∷ []

encode_pair : ℕ → ℕ → List ℕ
encode_pair high low =
    let c = 0x10000 + (high - 0xd800) * 1024 + (low - 0xdc00) in
    (0xf0 + c / 262144) ∷ (0x80 + c / 4096 % 64) ∷ (0x80 + c / 64 % 64) ∷ (0x80 + c % 64) ∷ []

-- The encoding behind a high surrogate that waits for its partner.
utf8_from : Option ℕ → Text → List ℕ
utf8_from none [] = []
utf8_from (some high) [] = replacement
utf8_from none (c ∷ s) =
    let rest = utf8_from none s in
    if is_high c
    then utf8_from (some c) s
    else if is_low c
    then replacement ++ rest
    else encode_unit c ++ rest
utf8_from (some high) (c ∷ s) =
    let rest = utf8_from none s in
    if is_low c
    then encode_pair high c ++ rest
    else if is_high c
    then replacement ++ utf8_from (some c) s
    else replacement ++ encode_unit c ++ rest

unfoldable pub utf8 : Text → List ℕ
unfolding encode_unit encode_pair utf8_from
utf8 s = utf8_from none s

-- ASCII is its own encoding.
pub utf8-ascii : (s : Text) → all (λ c. ltb c 128) s ≡ true → utf8 s ≡ s
unfolding utf8
utf8-ascii [] h = refl
utf8-ascii (c ∷ s) h = ground (arith, utf8-ascii s)
