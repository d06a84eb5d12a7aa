-- ===== src/Base/Maps.antt =====
-- Maps with texts as keys, as lists of entries in the order of insertion; sets of texts; the
-- operator `??`.
use mathlib.Core.Path.{◌≡◌, refl, ap, sym, ◌∙◌}
use mathlib.Core.Logic.{inl, inr}
use mathlib.Core.Bool.{Bool, false, not, ◌&&◌, ◌||◌}
use mathlib.Core.Option.{Option, none, some}
use mathlib.Core.List.{List, [], ◌∷◌}
use native.Mathlib.Omega.{arith}
use nestjs_boilerplate.Base.Tests.{if◌then◌else◌, Bool-cases}
use nestjs_boilerplate.Base.Strings.{Text, text_eq, text_eq→eq, text_eq_sym}
use nestjs_boilerplate.Base.Lists.{any, filter}

-- `a ?? b`
abbrev pub or_default {ℓ} : {A : Type ℓ} → Option A → A → A
or_default none b = b
or_default (some a) b = a

-- `set.has(key)`
abbrev pub has : Text → List Text → Bool
has key set = any (text_eq key) set

-- `Array.from(new Set(xs))`
abbrev pub unique : List Text → List Text
unique [] = []
unique (x ∷ xs) = x ∷ filter (λ y. not (text_eq x y)) (unique xs)

module _ {ℓ} {A : Type ℓ} where
  abbrev pub lookup : Text → List (Text × A) → Option A
  lookup key [] = none
  lookup key ((k, v) ∷ p) = if text_eq k key then some v else lookup key p

  -- `map.set(key, value)`
  abbrev pub set_key : Text → A → List (Text × A) → List (Text × A)
  set_key key value [] = (key, value) ∷ []
  set_key key value ((k, v) ∷ p) =
      if text_eq k key then (k, value) ∷ p else (k, v) ∷ set_key key value p

  abbrev pub keys_of : List (Text × A) → List Text
  keys_of [] = []
  keys_of ((k, v) ∷ p) = k ∷ keys_of p

  pub lookup-set_key :
      (k key : Text) (value : A) (p : List (Text × A))
      → lookup k (set_key key value p) ≡ (if text_eq key k then some value else lookup k p)
  lookup-set_key k key value [] = refl
  lookup-set_key k key value ((j, v) ∷ p) =
      let rest = lookup-set_key k key value p in
      elim (Bool-cases (text_eq j key)) [
        | inl same ↦
            let e = text_eq→eq j key same in
            let e' : text_eq j k ≡ text_eq key k = ap (λ (x : Text). text_eq x k) e in
            ground (arith, same, e')
        | inr other ↦ elim (Bool-cases (text_eq key k)) [
          | inl hit ↦
              let apart : text_eq j k ≡ false =
                ap (λ (x : Text). text_eq j x) (sym (text_eq→eq key k hit)) ∙ other in
              ground (arith, other, hit, apart, rest)
          | inr miss ↦ ground (arith, other, miss, rest)
        ]
      ]

-- What a test says of a key, it says of the texts that are equal to it.
pub has-filter :
    (q : Text → Bool) (key : Text) (set : List Text)
    → has key (filter q set) ≡ (has key set && q key)
has-filter q key [] = refl
has-filter q key (x ∷ set) =
    let rest = has-filter q key set in
    elim (Bool-cases (text_eq key x)) [
      | inl same ↦
          let e : q key ≡ q x = ap q (text_eq→eq key x same) in
          elim (Bool-cases (q x)) [
            | inl keep ↦ ground (arith, same, rest, e, keep)
            | inr drop ↦ ground (arith, same, rest, e, drop)
          ]
      | inr other ↦ elim (Bool-cases (q x)) [
        | inl keep ↦ ground (arith, other, rest, keep)
        | inr drop ↦ ground (arith, other, rest, drop)
      ]
    ]

pub has-unique : (key : Text) (xs : List Text) → has key (unique xs) ≡ has key xs
has-unique key [] = refl
has-unique key (x ∷ xs) =
    let rest = has-unique key xs in
    let others = has-filter (λ y. not (text_eq x y)) key (unique xs) in
    let flip = text_eq_sym x key in ground (arith, rest, others, flip)

module _ {ℓ} {A : Type ℓ} where
  pub has-set_key :
      (k key : Text) (value : A) (p : List (Text × A))
      → has k (keys_of (set_key key value p)) ≡ (text_eq k key || has k (keys_of p))
  has-set_key k key value [] = refl
  has-set_key k key value ((j, v) ∷ p) =
      let rest = has-set_key k key value p in
      elim (Bool-cases (text_eq j key)) [
        | inl same ↦
            let e : text_eq k j ≡ text_eq k key =
              ap (λ (x : Text). text_eq k x) (text_eq→eq j key same) in
            ground (arith, same, e)
        | inr other ↦ ground (arith, other, rest)
      ]
