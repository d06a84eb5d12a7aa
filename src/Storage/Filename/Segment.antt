-- ===== src/Storage/Filename/Segment.antt =====
-- What `sanitizeFilename` lets through.
use nestjs_boilerplate.Base.{
  ℕ, zero, suc, ◌≡◌, subst, ◌≤◌, ◌<◌, refl, Bool, true, false, [], ◌∷◌, any, all, map, take, length,
  length-take, Text, Result, ok, arith, inl, inr, Bool-cases,
}
use nestjs_boilerplate.Auth.Normalize.{trim}
use nestjs_boilerplate.Storage.Filename.{
  is_separator, is_safe, to_safe, last_component, required, valid, sanitize_filename,
}

-- One to 200 characters, each a letter, a digit, a dot, an underscore or a dash: no separator.
pub record IsSegment (s : Text) : Type 0 where
  pub safe : all is_safe s ≡ true
  pub no_separator : any is_separator s ≡ false
  pub not_empty : 0 < length s
  pub bounded : length s ≤ 200

to_safe-is_safe : (c : ℕ) → is_safe (to_safe c) ≡ true
to_safe-is_safe c = elim (Bool-cases (is_safe c)) [
  | inl safe ↦ ground (arith, safe)
  | inr other ↦ ground (arith, other)
]

all-take : (p : ℕ → Bool) (n : ℕ) (s : Text) → all p s ≡ true → all p (take n s) ≡ true
all-take p zero s h = refl
all-take p (suc n) [] h = refl
all-take p (suc n) (c ∷ s) h = ground (arith, all-take p n s, h)

all-map : (s : Text) → all is_safe (map to_safe s) ≡ true
all-map [] = refl
all-map (c ∷ s) = let here = to_safe-is_safe c in let rest = all-map s in rw here rest

safe_apart : (c : ℕ) → is_safe c ≡ true → is_separator c ≡ false
safe_apart c safe = ground (arith, safe)

safe_any : (s : Text) → all is_safe s ≡ true → any is_separator s ≡ false
safe_any [] safe = refl
safe_any (c ∷ s) safe = elim (Bool-cases (is_safe c)) [
  | inl here ↦
      let apart = safe_apart c here in let rest = safe_any s (rw here at safe) in rw apart rest
  | inr other ↦ ground (arith, rw other at safe)
]

valid-IsSegment : (t s : Text) → valid t ≡ ok s → all is_safe t ≡ true → IsSegment s
valid-IsSegment [] s accepted safe = ground (arith, accepted)
valid-IsSegment (c ∷ t) s accepted safe =
    let same : take 200 (c ∷ t) ≡ s = ground (arith, accepted) in
    let cut = all-take is_safe 200 (c ∷ t) safe in
    subst IsSegment same (record {
      safe = cut;
      no_separator = safe_any (take 200 (c ∷ t)) cut;
      not_empty = omega arith;
      bounded = length-take 200 (c ∷ t);
    })

required_ok : (name : Text) (r : Result Text) (s : Text) → required name r ≡ ok s → r ≡ ok s
required_ok [] r s accepted = ground (arith, accepted)
required_ok (c ∷ name) r s accepted = accepted

-- A name that `sanitizeFilename` accepts is one segment of a key: one to 200 characters, each a
-- letter, a digit, a dot, an underscore or a dash, and so no separator.
pub sanitize_filename-IsSegment :
    (filename s : Text) → sanitize_filename filename ≡ ok s → IsSegment s
unfolding sanitize_filename
sanitize_filename-IsSegment filename s accepted =
    valid-IsSegment (map to_safe (last_component (trim filename))) s
      (required_ok (trim filename) (valid (map to_safe (last_component (trim filename)))) s
        accepted)
      (all-map (last_component (trim filename)))
