-- ===== src/Shared/Otp/Laws.antt =====
-- A code has the requested number of digits, and reads back as the draw that it stands for.
use nestjs_boilerplate.Base.{
  ℕ, zero, suc, ◌+◌, ◌-◌, ◌*◌, ◌/◌, ◌^◌, ◌≤◌, ◌<◌, ◌≡◌, refl, ap, [], ◌∷◌, ◌++◌, Text, length,
  length-append, All, ok, arith, ltb, Bool-cases, inl, inr,
}
use native.Mathlib.Nat.{pow-suc}
use nestjs_boilerplate.Shared.Otp.{
  decimal, to_string, replicate, pad_start, otp_max, generate_otp_code,
}

abbrev pub IsDigit : ℕ → Type 0
IsDigit c = (b'0' ≤ c) × (c ≤ b'9')

-- The number that a string of digits stands for.
abbrev pub value_from : ℕ → Text → ℕ
value_from acc [] = acc
value_from acc (c ∷ s) = value_from (acc * 10 + (c - b'0')) s

value_from-append :
    (acc : ℕ) (s t : Text) → value_from acc (s ++ t) ≡ value_from (value_from acc s) t
value_from-append acc [] t = refl
value_from-append acc (c ∷ s) t = value_from-append (acc * 10 + (c - b'0')) s t

All-append : (P : ℕ → Type 0) (s t : Text) → All P s → All P t → All P (s ++ t)
All-append P [] t h k = k
All-append P (c ∷ s) t (p, h) k = (p, All-append P s t h k)

decimal-IsDigit : (fuel n : ℕ) → All IsDigit (decimal fuel n)
unfolding decimal
decimal-IsDigit zero n = tt
decimal-IsDigit (suc fuel) n = elim (Bool-cases (ltb n 10)) [
  | inl small ↦ rw small ((omega arith, ground arith), tt)
  | inr large ↦ rw large (
      All-append IsDigit (decimal fuel (n / 10)) _ (decimal-IsDigit fuel (n / 10))
        ((omega arith, omega arith), tt))
]

value-decimal : (fuel n : ℕ) → n < fuel → value_from 0 (decimal fuel n) ≡ n
unfolding decimal
value-decimal zero n h = absurd (omega arith)
value-decimal (suc fuel) n h = elim (Bool-cases (ltb n 10)) [
  | inl small ↦ rw small (omega arith)
  | inr large ↦
      rw
        (
          large,
          value_from-append 0 (decimal fuel (n / 10)),
          value-decimal fuel (n / 10) (ground arith),
        )
        (omega arith)
]

tenth : (n k : ℕ) → n < 10 ^ suc (suc k) → n / 10 < 10 ^ suc k
tenth n k h = let p = pow-suc 10 (suc k) in omega (arith, p)

-- A number below 10 ^ (k + 1) has at most k + 1 digits.
length-decimal : (fuel n k : ℕ) → n < 10 ^ (suc k) → length (decimal fuel n) ≤ suc k
unfolding decimal
length-decimal zero n k h = omega arith
length-decimal (suc fuel) n zero h = ground arith
length-decimal (suc fuel) n (suc k) h = elim (Bool-cases (ltb n 10)) [
  | inl small ↦ rw small (omega arith)
  | inr large ↦
      rw (large, length-append (decimal fuel (n / 10)))
        (omega (arith, length-decimal fuel (n / 10) k (tenth n k h)))
]

length-replicate : (n c : ℕ) → length (replicate n c) ≡ n
length-replicate zero c = refl
length-replicate (suc n) c = ap suc (length-replicate n c)

replicate-IsDigit : (n : ℕ) → All IsDigit (replicate n b'0')
replicate-IsDigit zero = tt
replicate-IsDigit (suc n) = ((omega arith, omega arith), replicate-IsDigit n)

value-replicate : (n : ℕ) → value_from 0 (replicate n b'0') ≡ 0
value-replicate zero = refl
value-replicate (suc n) = value-replicate n

-- A code of `len` digits, for a draw below 10 ^ len: it is returned, it has `len` code units, all
-- decimal digits, and reads back as the draw. So two draws never give one code.
abbrev pub IsCode : ℕ → ℕ → Text → Type 0
IsCode len draw s = (length s ≡ len) × All IsDigit s × (value_from 0 s ≡ draw)

-- For a length of 1 to 10 and a draw below its power of ten, `generateOtpCode` answers with exactly
-- that many decimal digits, which read back as the draw.
pub generate_otp_code-IsCode :
    (len draw : ℕ)
    → 1 ≤ len
    → len ≤ 10
    → draw < otp_max len
    → (s : Text) × (generate_otp_code len draw ≡ ok s) × IsCode len draw s
unfolding generate_otp_code
generate_otp_code-IsCode (suc len) draw low high small =
    let body = decimal (suc draw) draw in
    let fits = length-decimal (suc draw) draw len small in
    (
      pad_start (suc len) b'0' (to_string draw),
      ground arith,
      (
        rw (length-append (replicate (suc len - length body) b'0'))
            (omega (arith, length-replicate (suc len - length body) b'0')),
        All-append IsDigit (replicate (suc len - length body) b'0') body
            (replicate-IsDigit (suc len - length body)) (decimal-IsDigit (suc draw) draw),
        rw
            (
              value_from-append 0 (replicate (suc len - length body) b'0'),
              value-replicate (suc len - length body),
            )
            (value-decimal (suc draw) draw (omega arith)),
      ),
    )
generate_otp_code-IsCode zero draw low high small = absurd (omega arith)
