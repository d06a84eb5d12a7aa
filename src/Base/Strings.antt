-- ===== src/Base/Strings.antt =====
-- The strings of the program's language: lists of UTF-16 code units, so that `length`, `slice` and
-- a comparison by `===` are those of the list. Literals are ASCII.
use Prim.Native.Nat.{ℕ}
use Prim.Native.Char.{code}
use Prim.Native.String.{String}
use mathlib.Core.Path.{◌≡◌, refl}
use mathlib.Core.Logic.{◌↔◌}
use mathlib.Core.Bool.{Bool, true, false, ◌&&◌, ◌||◌}
use mathlib.Core.List.{List, [], ◌∷◌, ◌++◌}
use native.Mathlib.Omega.{arith}
use nestjs_boilerplate.Base.Tests.{◌==◌}

abbrev pub Text : Type 0
Text = List ℕ

-- A literal of the source.
abbrev pub codes : String → Text
codes String.[] = []
codes (String.◌∷◌ c s) = code c ∷ codes s

-- `a === b`
unfoldable pub text_eq : Text → Text → Bool
text_eq [] [] = true
text_eq (a ∷ s) (b ∷ t) = a == b && text_eq s t
text_eq _ _ = false

-- `s.startsWith(pattern)` and `s.includes(pattern)`
abbrev pub starts_with : Text → Text → Bool
starts_with [] s = true
starts_with (c ∷ pattern) [] = false
starts_with (c ∷ pattern) (d ∷ s) = c == d && starts_with pattern s

abbrev pub includes : Text → Text → Bool
includes pattern [] = starts_with pattern []
includes pattern (c ∷ s) = starts_with pattern (c ∷ s) || includes pattern s

pub text_eq_refl : (s : Text) → text_eq s s ≡ true
unfolding text_eq
text_eq_refl [] = refl
text_eq_refl (a ∷ s) = ground (arith, text_eq_refl s)

pub text_eq→eq : (s t : Text) → text_eq s t ≡ true → s ≡ t
unfolding text_eq
text_eq→eq [] [] h = refl
text_eq→eq (a ∷ s) (b ∷ t) h = ground (arith, text_eq→eq s t)
text_eq→eq _ _ h = ground arith

pub text_eq_iff : (s t : Text) → (text_eq s t ≡ true) ↔ (s ≡ t)
text_eq_iff s t = (text_eq→eq s t, λ e. rw e (text_eq_refl t))

-- A string and a longer one differ.
pub text_eq-append : (s : Text) (c : ℕ) (t : Text) → text_eq s (s ++ c ∷ t) ≡ false
unfolding text_eq
text_eq-append [] c t = refl
text_eq-append (a ∷ s) c t = ground (arith, text_eq-append s c t)

pub text_eq-append' : (s : Text) (c : ℕ) (t : Text) → text_eq (s ++ c ∷ t) s ≡ false
unfolding text_eq
text_eq-append' [] c t = refl
text_eq-append' (a ∷ s) c t = ground (arith, text_eq-append' s c t)

pub text_eq_sym : (s t : Text) → text_eq s t ≡ text_eq t s
unfolding text_eq
text_eq_sym [] [] = refl
text_eq_sym [] (b ∷ t) = refl
text_eq_sym (a ∷ s) [] = refl
text_eq_sym (a ∷ s) (b ∷ t) = ground (arith, text_eq_sym s t)

pub text_eq-prefix : (p s t : Text) → text_eq (p ++ s) (p ++ t) ≡ text_eq s t
unfolding text_eq
text_eq-prefix [] s t = refl
text_eq-prefix (a ∷ p) s t = ground (arith, text_eq-prefix p s t)
