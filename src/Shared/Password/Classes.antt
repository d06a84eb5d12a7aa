-- ===== src/Shared/Password/Classes.antt =====
-- The shuffle keeps the characters, so each class of them stays in the password.
use nestjs_boilerplate.Base.{
  ℕ, zero, suc, ◌+◌, ◌<◌, ◌≡◌, refl, ap, sym, subst, ◌∙◌, ◌==◌, ◌&&◌, leb, all, Bool, true, [], ◌∷◌,
  ◌++◌, any, length, Text, if◌then◌else◌, arith, Bool-cases, inl, inr,
}
use nestjs_boilerplate.Shared.Password.{
  lower_set, upper_set, digit_set, special_set, get_at, set_at, swap, pick, fill, shuffle,
  guaranteed, generate_strong_password,
}

length-set_at : (i v : ℕ) (s : Text) → length (set_at i v s) ≡ length s
unfolding set_at
length-set_at i v [] = refl
length-set_at zero v (c ∷ s) = refl
length-set_at (suc i) v (c ∷ s) = ap (λ (n : ℕ). suc n) (length-set_at i v s)

get_at-set_at :
    (k i v : ℕ) (s : Text)
    → k < length s
    → get_at k (set_at i v s) ≡ (if k == i then v else get_at k s)
unfolding get_at set_at
get_at-set_at k i v [] h = ground (arith, h)
get_at-set_at zero zero v (c ∷ s) h = ground arith
get_at-set_at zero (suc i) v (c ∷ s) h = ground arith
get_at-set_at (suc k) zero v (c ∷ s) h = ground arith
get_at-set_at (suc k) (suc i) v (c ∷ s) h =
    let rest = get_at-set_at k i v s (omega (arith, h)) in ground (arith, rest)

-- A place of a character of the class.
any-place :
    (g : ℕ → Bool) (s : Text) → any g s ≡ true → (k : ℕ) × (k < length s) × (g (get_at k s) ≡ true)
unfolding get_at
any-place g [] h = ground (arith, h)
any-place g (c ∷ s) h = elim (Bool-cases (g c)) [
  | inl here ↦ (0, omega arith, here)
  | inr other ↦
      let (k, inside, there) = any-place g s (ground (arith, other, h)) in
      (suc k, omega (arith, inside), there)
]

place-any :
    (g : ℕ → Bool) (k : ℕ) (s : Text) → k < length s → g (get_at k s) ≡ true → any g s ≡ true
unfolding get_at
place-any g k [] inside h = ground (arith, inside)
place-any g zero (c ∷ s) inside h = ground (arith, h)
place-any g (suc k) (c ∷ s) inside h =
    let rest = place-any g k s (omega (arith, inside)) h in ground (arith, rest)

length-swap : (i j : ℕ) (s : Text) → length (swap i j s) ≡ length s
unfolding swap
length-swap i j s =
    length-set_at j (get_at i s) (set_at i (get_at j s) s) ∙ length-set_at i (get_at j s) s

get_at-swap :
    (k i j : ℕ) (s : Text)
    → k < length s
    → get_at k (swap i j s)
      ≡ (if k == j then get_at i s else if k == i then get_at j s else get_at k s)
unfolding swap
get_at-swap k i j s h =
    let same = length-set_at i (get_at j s) s in
    let outer = get_at-set_at k j (get_at i s) (set_at i (get_at j s) s) (omega (arith, same, h)) in
    let inner = get_at-set_at k i (get_at j s) s h in ground (arith, outer, inner)

-- A character of the class at place `k`, wherever the places are swapped.
module _ (g : ℕ → Bool) (i j : ℕ) (s : Text) (i_in : i < length s) (j_in : j < length s) where
  kept_at : (k : ℕ) → k < length s → g (get_at k s) ≡ true → any g (swap i j s) ≡ true
  kept_at k k_in there =
      let size = length-swap i j s in
      elim (Bool-cases (k == j)) [
        | inl at_j ↦
            let e : k ≡ j = ground (arith, at_j) in
            let there' : g (get_at j s) ≡ true = subst (λ n. g (get_at n s) ≡ true) e there in
            let seen = get_at-swap i i j s i_in in
            place-any g i (swap i j s) (omega (arith, size, i_in)) (elim (Bool-cases (i == j)) [
              | inl same ↦
                  let e' : i ≡ j = ground (arith, same) in
                  let value : get_at i (swap i j s) ≡ get_at i s = ground (arith, seen, same) in
                  ap g value ∙ subst (λ n. g (get_at n s) ≡ true) (sym e') there'
              | inr apart ↦
                  let value : get_at i (swap i j s) ≡ get_at j s = ground (arith, seen, apart) in
                  ap g value ∙ there'
            ])
        | inr not_j ↦ elim (Bool-cases (k == i)) [
          | inl at_i ↦
              let e : k ≡ i = ground (arith, at_i) in
              let seen = get_at-swap j i j s j_in in
              let value : get_at j (swap i j s) ≡ get_at i s = ground (arith, seen) in
              place-any g j (swap i j s) (omega (arith, size, j_in))
                (ap g value ∙ subst (λ n. g (get_at n s) ≡ true) e there)
          | inr not_i ↦
              let seen = get_at-swap k i j s k_in in
              let value : get_at k (swap i j s) ≡ get_at k s = ground (arith, seen, not_j, not_i) in
              place-any g k (swap i j s) (omega (arith, size, k_in)) (ap g value ∙ there)
        ]
      ]

  any-swap : any g s ≡ true → any g (swap i j s) ≡ true
  any-swap h = let (k, k_in, there) = any-place g s h in kept_at k k_in there

all-get_at :
    (g : ℕ → Bool) (k : ℕ) (s : Text) → all g s ≡ true → k < length s → g (get_at k s) ≡ true
unfolding get_at
all-get_at g k [] h inside = ground (arith, inside)
all-get_at g zero (c ∷ s) h inside = ground (arith, h)
all-get_at g (suc k) (c ∷ s) h inside = all-get_at g k s (ground (arith, h)) (omega (arith, inside))

abbrev pub is_lower : ℕ → Bool
is_lower c = leb b'a' c && leb c b'z'

abbrev pub is_upper : ℕ → Bool
is_upper c = leb b'A' c && leb c b'Z'

abbrev pub is_digit : ℕ → Bool
is_digit c = leb b'0' c && leb c b'9'

abbrev pub is_special : ℕ → Bool
is_special c = any (λ d. c == d) special_set

module _ (draw : ℕ → ℕ → ℕ) (bounded : (moment n : ℕ) → 0 < n → draw moment n < n) where
  shuffle_keeps :
      (g : ℕ → Bool) (i moment : ℕ) (s : Text)
      → i < length s
      → any g s ≡ true
      → any g (shuffle draw i moment s) ≡ true
  unfolding shuffle
  shuffle_keeps g zero moment s inside h = h
  shuffle_keeps g (suc i) moment s inside h =
      let j = draw moment (suc i + 1) in
      let j_le = bounded moment (suc i + 1) (omega arith) in
      let size = length-swap (suc i) j s in
      shuffle_keeps g i (moment + 1) (swap (suc i) j s) (omega (arith, size, inside))
        (any-swap g (suc i) j s inside (omega (arith, j_le, inside)) h)

  length-shuffle : (i moment : ℕ) (s : Text) → length (shuffle draw i moment s) ≡ length s
  unfolding shuffle
  length-shuffle zero moment s = refl
  length-shuffle (suc i) moment s =
      let j = draw moment (suc i + 1) in
      length-shuffle i (moment + 1) (swap (suc i) j s) ∙ length-swap (suc i) j s

  length-fill : (n moment : ℕ) → length (fill draw n moment) ≡ n
  unfolding fill
  length-fill zero moment = refl
  length-fill (suc n) moment = ap (λ (k : ℕ). suc k) (length-fill n (moment + 1))

  pick_lem :
      (g : ℕ → Bool) (moment : ℕ) (set : Text)
      → all g set ≡ true
      → 0 < length set
      → g (pick draw moment set) ≡ true
  unfolding pick
  pick_lem g moment set h some_there =
      all-get_at g (draw moment (length set)) set h (bounded moment (length set) some_there)

  -- Whatever is drawn within the bounds: a generated password has 16 characters, of which at least
  -- one is a small letter, one a capital, one a digit and one a special character.
  pub generate_strong_password_lem :
      (moment : ℕ)
      → let password = generate_strong_password draw moment in
        (length password ≡ 16)
        × (any is_lower password ≡ true)
        × (any is_upper password ≡ true)
        × (any is_digit password ≡ true)
        × (any is_special password ≡ true)
  unfolding generate_strong_password get_at
  generate_strong_password_lem moment =
      let rest = fill draw 12 (moment + 4) in
      let chars = guaranteed draw moment ++ rest in
      let count = length-fill 12 (moment + 4) in
      let keep = λ (g : ℕ → Bool) (h : any g chars ≡ true).
        shuffle_keeps g 15 (moment + 16) chars (omega (arith, count)) h in
      let small = pick_lem is_lower moment lower_set refl (omega arith) in
      let capital = pick_lem is_upper (moment + 1) upper_set refl (omega arith) in
      let digit = pick_lem is_digit (moment + 2) digit_set refl (omega arith) in
      let special = pick_lem is_special (moment + 3) special_set refl (omega arith) in
      (
        length-shuffle 15 (moment + 16) chars ∙ ground (arith, count),
        keep is_lower (place-any is_lower 0 chars (omega (arith, count)) small),
        keep is_upper (place-any is_upper 1 chars (omega (arith, count)) capital),
        keep is_digit (place-any is_digit 2 chars (omega (arith, count)) digit),
        keep is_special (place-any is_special 3 chars (omega (arith, count)) special),
      )
