-- ===== src/Shared/Escape/Tests.antt =====
-- Texts that are escaped.
use nestjs_boilerplate.Base.{◌++◌, if◌then◌else◌, ◌≡◌, refl, ◌∷◌, false, some, any, Text, codes}
use nestjs_boilerplate.Auth.Normalize.{trim_start, is_space}
use nestjs_boilerplate.Shared.Escape.{escape_html, csv_cell, is_formula, replace_unit}
use nestjs_boilerplate.Shared.Escape.Html.{is_markup, escape_html_lem}
use nestjs_boilerplate.Shared.Escape.Csv.{read_cell, is_dangerous, csv_cell_lem}

abbrev tag : Text
tag = codes "<b a='1'>&lt;"

escape_html_lem_example :
    (escape_html tag ≡ codes "&lt;b a=&#39;1&#39;&gt;&amp;lt;")
    × (any is_markup (escape_html tag) ≡ false)
escape_html_lem_example = escape_html_lem tag

abbrev call : Text
call = codes " =SUM(A1,A2)"

-- The cell, and behind it the next one of the row.
csv_cell_lem_example :
    (text : Text) × (read_cell (csv_cell (some call) ++ codes ",7") ≡ some (text, codes ",7"))
    × (text ≡ (if is_dangerous call then 39 ∷ call else call))
    × (is_dangerous text ≡ false)
csv_cell_lem_example = csv_cell_lem call (codes ",7") refl

csv_cell_test : csv_cell (some call) ≡ codes "\"' =SUM(A1,A2)\""
unfolding csv_cell is_formula trim_start is_space replace_unit
csv_cell_test = refl
