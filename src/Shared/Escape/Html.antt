-- ===== src/Shared/Escape/Html.antt =====
-- The five replacements of `escapeHtml` are one pass over the text.
use nestjs_boilerplate.Base.{
  ℕ, ◌≡◌, refl, ap, ◌∙◌, ◌==◌, ◌||◌, Bool, false, [], ◌∷◌, ◌++◌, any, Text, codes, if◌then◌else◌,
  arith,
}
use mathlib.Core.List.{append_assoc}
use nestjs_boilerplate.Shared.Escape.{replace_unit, escape_html}

abbrev pub entity : ℕ → Text
entity c =
    if c == b'&'
    then codes "&amp;"
    else if c == b'<'
    then codes "&lt;"
    else if c == b'>'
    then codes "&gt;"
    else if c == 34
    then codes "&quot;"
    else if c == 39
    then codes "&#39;"
    else c ∷ []

abbrev pub escaped : Text → Text
escaped [] = []
escaped (c ∷ s) = entity c ++ escaped s

-- What markup could read as a tag or as the end of an attribute.
abbrev pub is_markup : ℕ → Bool
is_markup c = c == b'<' || c == b'>' || c == 34 || c == 39

replace_unit-append :
    (c : ℕ) (t u v : Text) → replace_unit c t (u ++ v) ≡ replace_unit c t u ++ replace_unit c t v
unfolding replace_unit
replace_unit-append c t [] v = refl
replace_unit-append c t (d ∷ u) v =
    let rest = replace_unit-append c t u v in
    let assoc = append_assoc t (replace_unit c t u) (replace_unit c t v) in
    ground (arith, rest, assoc)

-- A function on texts that works part by part.
abbrev Splits : (Text → Text) → Type 0
Splits f = (u v : Text) → f (u ++ v) ≡ f u ++ f v

then_replace :
    (f : Text → Text) (c : ℕ) (t : Text) → Splits f → Splits (λ s. replace_unit c t (f s))
then_replace f c t splits u v =
    ap (λ (x : Text). replace_unit c t x) (splits u v) ∙ replace_unit-append c t (f u) (f v)

escape_html-append : Splits escape_html
unfolding escape_html
escape_html-append =
    let amp = replace_unit b'&' (codes "&amp;") in
    let lt = λ (s : Text). replace_unit b'<' (codes "&lt;") (amp s) in
    let gt = λ (s : Text). replace_unit b'>' (codes "&gt;") (lt s) in
    let quot = λ (s : Text). replace_unit 34 (codes "&quot;") (gt s) in
    then_replace quot 39 (codes "&#39;") (
      then_replace gt 34 (codes "&quot;") (
        then_replace lt b'>' (codes "&gt;")
          (then_replace amp b'<' (codes "&lt;") (replace_unit-append b'&' (codes "&amp;")))))

escape_html-entity : (c : ℕ) → escape_html (c ∷ []) ≡ entity c
unfolding escape_html replace_unit
escape_html-entity c = ground arith

entity-markup : (c : ℕ) (s : Text) → any is_markup (entity c ++ s) ≡ any is_markup s
entity-markup c s = ground arith

escaped-markup : (s : Text) → any is_markup (escaped s) ≡ false
escaped-markup [] = refl
escaped-markup (c ∷ s) = entity-markup c (escaped s) ∙ escaped-markup s

escape_html-escaped : (s : Text) → escape_html s ≡ escaped s
unfolding escape_html replace_unit
escape_html-escaped [] = refl
escape_html-escaped (c ∷ s) =
    escape_html-append (c ∷ []) s
    ∙ ap (λ (x : Text). x ++ escape_html s) (escape_html-entity c)
    ∙ ap (λ (x : Text). entity c ++ x) (escape_html-escaped s)

-- The five replacements of `escapeHtml`, one after the other, are one pass that writes each of the
-- five characters as its entity and keeps every other. What comes out has no angle bracket and no
-- quote.
pub escape_html_lem :
    (value : Text)
    → (escape_html value ≡ escaped value) × (any is_markup (escape_html value) ≡ false)
escape_html_lem value =
    let same = escape_html-escaped value in
    (same, ap (λ (x : Text). any is_markup x) same ∙ escaped-markup value)
