-- ===== src/Shared/Audit/Unseen.antt =====
-- How many references redaction has not seen, which bounds the depth of its recursion.
use nestjs_boilerplate.Base.{
  ℕ, zero, suc, ◌+◌, ◌<◌, ◌≤◌, ◌≢◌, ◌≡◌, ap, ◌∙◌, ◌==◌, true, false, List, ◌∷◌, if◌then◌else◌,
  arith, Bool-cases, inl, inr,
}
use nestjs_boilerplate.Shared.Audit.{is_seen}

-- The number of references below `n` that were not seen.
abbrev pub unseen : ℕ → List ℕ → ℕ
unseen zero seen = 0
unseen (suc n) seen = (if is_seen n seen then 0 else 1) + unseen n seen

abbrev pub Extends : List ℕ → List ℕ → Type 0
Extends seen seen' = (i : ℕ) → is_seen i seen ≡ true → is_seen i seen' ≡ true

pub unseen_le : (n : ℕ) (seen : List ℕ) → unseen n seen ≤ n
unseen_le zero seen = omega arith
unseen_le (suc n) seen = ground (arith, unseen_le n seen)

pub unseen-Extends :
    (n : ℕ) (seen seen' : List ℕ) → Extends seen seen' → unseen n seen' ≤ unseen n seen
unseen-Extends zero seen seen' more = omega arith
unseen-Extends (suc n) seen seen' more =
    let rest = unseen-Extends n seen seen' more in
    elim (Bool-cases (is_seen n seen)) [
      | inl old ↦ ground (arith, old, more n old, rest)
      | inr new ↦ ground (arith, new, rest)
    ]

pub unseen_here :
    (n i : ℕ) (seen : List ℕ) → i < n → is_seen i seen ≡ false → unseen n (i ∷ seen) < unseen n seen
unseen_here zero i seen small new = omega (arith, small)
unseen_here (suc n) i seen small new =
    let grows = unseen-Extends n seen (i ∷ seen) (λ j h. ground (arith, h)) in
    elim (Bool-cases (n == i)) [
      | inl here ↦
          let e : n ≡ i = ground (arith, here) in
          let fresh : is_seen n seen ≡ false = ap (λ (j : ℕ). is_seen j seen) e ∙ new in
          ground (arith, here, fresh, grows)
      | inr below ↦
          let apart : n ≢ i = ground (arith, below) in
          let rest = unseen_here n i seen (omega (arith, small, apart)) new in
          elim (Bool-cases (is_seen n seen)) [
            | inl old ↦ ground (arith, below, old, rest)
            | inr other ↦ ground (arith, below, other, rest)
          ]
    ]
