-- ===== src/Shared/Escape.antt =====
-- src/modules/shared/common/utils/escape-html.util.ts and csv.util.ts: texts that go into markup and
-- into spreadsheets.
pub mod Html
pub mod Csv
mod Tests
use nestjs_boilerplate.Base.{
  ℕ, ◌==◌, ◌||◌, Bool, true, false, Option, none, some, List, [], ◌∷◌, ◌++◌, any, Text, codes,
  if◌then◌else◌,
}
use nestjs_boilerplate.Auth.Normalize.{trim_start}

-- `s.replace(/c/g, t)` for one code unit
unfoldable pub replace_unit : ℕ → Text → Text → Text
replace_unit c t [] = []
replace_unit c t (d ∷ s) = let rest = replace_unit c t s in if d == c then t ++ rest else d ∷ rest

unfoldable pub escape_html : Text → Text
escape_html value = replace_unit 39 (codes "&#39;") (
    replace_unit 34 (codes "&quot;") (
      replace_unit b'>' (codes "&gt;")
        (replace_unit b'<' (codes "&lt;") (replace_unit b'&' (codes "&amp;") value))))

-- CSV_FORMULA_PREFIX
abbrev pub is_trigger : ℕ → Bool
is_trigger c = c == b'=' || c == b'+' || c == b'-' || c == b'@'

abbrev pub starts_by : (ℕ → Bool) → Text → Bool
starts_by test [] = false
starts_by test (c ∷ s) = test c

unfoldable pub is_formula : Text → Bool
is_formula raw = starts_by is_trigger (trim_start raw)

-- `/[",\n\r]/`
abbrev pub needs_quotes : ℕ → Bool
needs_quotes c = c == 34 || c == b',' || c == 10 || c == 13

abbrev pub neutralised : Text → Text
neutralised raw = if is_formula raw then 39 ∷ raw else raw

-- `csvCell(value)`, for the text of a value that is there.
unfoldable pub csv_cell : Option Text → Text
csv_cell none = []
csv_cell (some raw) =
    let safe = neutralised raw in
    if any needs_quotes safe then 34 ∷ replace_unit 34 (34 ∷ 34 ∷ []) safe ++ 34 ∷ [] else safe
