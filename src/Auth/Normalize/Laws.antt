-- ===== src/Auth/Normalize/Laws.antt =====
-- What a normalized phone number looks like, and that normalizing it again changes nothing.
use nestjs_boilerplate.Base.{
  ℕ, ◌≤◌, ◌≡◌, refl, ◌==◌, ◌⊎◌, inl, inr, Bool, true, false, [], ◌∷◌, ◌++◌, Text, length, filter,
  all, not, arith, Bool-cases, ok,
}
use mathlib.Core.List.{reverse, reverse-reverse, reverse-cons}
use nestjs_boilerplate.Auth.Normalize.{
  is_space, trim_start, trim, is_digit, keep_plus_digits, normalize_phone,
}

-- A string of ASCII digits, with or without a plus sign in front, of 8 to 15 digits.
abbrev pub IsPhone : Text → Type 0
IsPhone s =
    (digits : Text) × ((s ≡ digits) ⊎ (s ≡ b'+' ∷ digits))
    × (all is_digit digits ≡ true)
    × (8 ≤ length digits)
    × (length digits ≤ 15)

all-filter : (p : ℕ → Bool) (s : Text) → all p (filter p s) ≡ true
all-filter p [] = refl
all-filter p (c ∷ s) = ground (arith, all-filter p s)

filter-all : (p : ℕ → Bool) (s : Text) → all p s ≡ true → filter p s ≡ s
filter-all p [] h = refl
filter-all p (c ∷ s) h = ground (arith, filter-all p s)

-- What the first replacement keeps: digits, behind at most one plus sign.
keep_shape :
    (s : Text)
    → (digits : Text) × ((keep_plus_digits s ≡ digits) ⊎ (keep_plus_digits s ≡ b'+' ∷ digits))
      × (all is_digit digits ≡ true)
unfolding keep_plus_digits
keep_shape [] = ([], inl refl, refl)
keep_shape (c ∷ s) = elim (Bool-cases (c == b'+')) [
  | inl plus ↦ (filter is_digit s, inr (ground arith), all-filter is_digit s)
  | inr other ↦ elim (Bool-cases (is_digit c)) [
    | inl digit ↦ (c ∷ filter is_digit s, inl (ground arith), ground (arith, all-filter is_digit s))
    | inr letter ↦ (filter is_digit s, inl (ground arith), all-filter is_digit s)
  ]
]

digit-not-space : (c : ℕ) → is_digit c ≡ true → is_space c ≡ false
unfolding is_digit is_space
digit-not-space c h = ground arith

plus-not-digit : is_digit b'+' ≡ false
unfolding is_digit
plus-not-digit = refl

plus-not-space : is_space b'+' ≡ false
unfolding is_space
plus-not-space = refl

abbrev not_space : ℕ → Bool
not_space c = not (is_space c)

all-weaken : (s : Text) → all is_digit s ≡ true → all not_space s ≡ true
all-weaken [] h = refl
all-weaken (c ∷ s) h = ground (arith, all-weaken s, digit-not-space c)

all-append : (p : ℕ → Bool) (s t : Text) → all p s ≡ true → all p t ≡ true → all p (s ++ t) ≡ true
all-append p [] t h k = k
all-append p (c ∷ s) t h k = ground (arith, all-append p s t)

all-reverse : (p : ℕ → Bool) (s : Text) → all p s ≡ true → all p (reverse s) ≡ true
all-reverse p [] h = refl
all-reverse p (c ∷ s) h =
    rw reverse-cons
      (all-append p (reverse s) (c ∷ []) (all-reverse p s (ground arith)) (ground arith))

trim_start_plain : (s : Text) → all not_space s ≡ true → trim_start s ≡ s
unfolding trim_start
trim_start_plain [] h = refl
trim_start_plain (c ∷ s) h = ground arith

-- A string with no white space is its own trimming.
trim_plain : (s : Text) → all not_space s ≡ true → trim s ≡ s
unfolding trim
trim_plain s h =
    rw (trim_start_plain s h, trim_start_plain (reverse s) (all-reverse not_space s h))
      (reverse-reverse s)

phone-not_space : (s : Text) → IsPhone s → all not_space s ≡ true
phone-not_space s (digits, inl e, h, _, _) = rw e (all-weaken digits h)
phone-not_space s (digits, inr e, h, _, _) =
    rw e (ground (arith, plus-not-space, all-weaken digits h))

keep_phone : (s : Text) → IsPhone s → keep_plus_digits s ≡ s
unfolding keep_plus_digits
keep_phone s (digits, inl e, h, _, _) = rw e (keep_all digits h)
  where
    keep_all : (t : Text) → all is_digit t ≡ true → keep_plus_digits t ≡ t
    keep_all [] h = refl
    keep_all (c ∷ t) h = ground (arith, filter-all is_digit t)
keep_phone s (digits, inr e, h, _, _) = rw (e, filter-all is_digit digits h)

filter-phone :
    (s digits : Text)
    → (s ≡ digits) ⊎ (s ≡ b'+' ∷ digits)
    → all is_digit digits ≡ true
    → filter is_digit s ≡ digits
filter-phone s digits (inl e) h = rw e (filter-all is_digit digits h)
filter-phone s digits (inr e) h = rw (e, plus-not-digit) (filter-all is_digit digits h)

-- A number that `normalizePhone` accepts is 8 to 15 ASCII digits with or without a plus sign in
-- front, and is a normal form: the method accepts it again and returns it unchanged.
pub normalize_phone-IsPhone :
    (raw s : Text) → normalize_phone raw ≡ ok s → IsPhone s × (normalize_phone s ≡ ok s)
unfolding normalize_phone
normalize_phone-IsPhone raw s e =
    let (digits, shape, h) = keep_shape (trim raw) in
    let f = filter-phone (keep_plus_digits (trim raw)) digits shape h in
    let same : keep_plus_digits (trim raw) ≡ s = ground (arith, f) in
    let low : 8 ≤ length digits = ground (arith, f) in
    let high : length digits ≤ 15 = ground (arith, f) in
    let p : IsPhone s = (digits, rw same at shape, h, low, high) in
    (
      p,
      rw (trim_plain s (phone-not_space s p), keep_phone s p, filter-phone s digits p.1 h)
          (ground arith),
    )

-- Conversely, a phone number in normal form is accepted and returned unchanged.
pub normalize_phone_accepts : (s : Text) → IsPhone s → normalize_phone s ≡ ok s
unfolding normalize_phone
normalize_phone_accepts s p =
    rw (trim_plain s (phone-not_space s p), keep_phone s p, filter-phone s p.0 p.1 p.2)
      (ground (arith, p.3, p.4))
