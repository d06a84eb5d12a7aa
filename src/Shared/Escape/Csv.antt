-- ===== src/Shared/Escape/Csv.antt =====
-- A cell of a CSV file is read back, and is no formula.
use mathlib.Core.List.{append_assoc}
use nestjs_boilerplate.Base.{
  ℕ, ◌≡◌, refl, ◌==◌, ◌||◌, Bool, true, false, Option, none, some, [], ◌∷◌, ◌++◌, any, Text, codes,
  if◌then◌else◌, arith, Bool-cases, inl, inr, ◌∙◌, ap,
}
use nestjs_boilerplate.Auth.Normalize.{trim_start, is_space}
use nestjs_boilerplate.Shared.Escape.{replace_unit, is_formula, needs_quotes, neutralised, csv_cell}

-- A comma or the end of a line ends a cell.
abbrev pub ends_cell : ℕ → Bool
ends_cell c = c == 44 || c == 10 || c == 13

-- Whether the text, which stands behind a cell, is empty or goes on by the end of a cell.
abbrev pub starts_by_end : Text → Bool
starts_by_end [] = true
starts_by_end (c ∷ s) = ends_cell c

abbrev put : ℕ → Option (Text × Text) → Option (Text × Text)
put c none = none
put c (some (s, rest)) = some (c ∷ s, rest)

-- A reader of cells by RFC 4180 gives the text of the first cell and what is behind the cell. In a
-- quoted cell two quotes are one, and behind the closing quote the cell must end.
unfoldable pub read_quoted : Text → Option (Text × Text)
read_quoted [] = none
read_quoted (c ∷ []) = if c == 34 then some ([], []) else none
read_quoted (c ∷ d ∷ s) =
    let rest = read_quoted (d ∷ s) in
    let behind = read_quoted s in
    if c == 34
    then if d == 34 then put 34 behind else if ends_cell d then some ([], d ∷ s) else none
    else put c rest

-- A cell that is not quoted holds no quote.
unfoldable pub read_plain : Text → Option (Text × Text)
read_plain [] = some ([], [])
read_plain (c ∷ s) =
    let rest = read_plain s in
    if ends_cell c then some ([], c ∷ s) else if c == 34 then none else put c rest

unfoldable pub read_cell : Text → Option (Text × Text)
unfolding read_quoted read_plain
read_cell [] = some ([], [])
read_cell (c ∷ s) = if c == 34 then read_quoted s else read_plain (c ∷ s)

-- A spreadsheet takes a text as a formula whose first character behind white space is one of four.
unfoldable pub is_dangerous : Text → Bool
is_dangerous [] = false
is_dangerous (c ∷ s) =
    let rest = is_dangerous s in if is_space c then rest else any (λ d. d == c) (codes "=+-@")

formula-dangerous : (s : Text) → is_formula s ≡ is_dangerous s
unfolding is_formula trim_start is_dangerous
formula-dangerous [] = refl
formula-dangerous (c ∷ s) =
    let rest = formula-dangerous s in
    elim (Bool-cases (is_space c)) [
      | inl space ↦ ground (arith, space, rest)
      | inr text ↦ ground (arith, text)
    ]

read_quoted-other :
    (c : ℕ) (s : Text) → c == 34 ≡ false → read_quoted (c ∷ s) ≡ put c (read_quoted s)
unfolding read_quoted
read_quoted-other c [] other = ground (arith, other)
read_quoted-other c (d ∷ s) other = ground (arith, other)

abbrev doubled : Text → Text
doubled s = replace_unit 34 (34 ∷ 34 ∷ []) s

read_quoted-doubled :
    (s rest : Text)
    → starts_by_end rest ≡ true
    → read_quoted (doubled s ++ 34 ∷ rest) ≡ some (s, rest)
unfolding read_quoted replace_unit
read_quoted-doubled [] [] end = refl
read_quoted-doubled [] (d ∷ rest) end = ground (arith, end)
read_quoted-doubled (c ∷ s) rest end =
    let read = read_quoted-doubled s rest end in
    elim (Bool-cases (c == 34)) [
      | inl quote ↦
          let same : 34 ≡ c = ground (arith, quote) in
          rw quote (ap (put 34) read ∙ ap (λ (d : ℕ). some (d ∷ s, rest)) same)
      | inr other ↦
          let step = read_quoted-other c (doubled s ++ 34 ∷ rest) other in
          rw other (step ∙ ap (put c) read)
    ]

read_plain_lem :
    (s rest : Text)
    → any needs_quotes s ≡ false
    → starts_by_end rest ≡ true
    → read_plain (s ++ rest) ≡ some (s, rest)
unfolding read_plain
read_plain_lem [] [] plain end = refl
read_plain_lem [] (d ∷ rest) plain end = ground (arith, end)
read_plain_lem (c ∷ s) rest plain end =
    let tail : any needs_quotes s ≡ false = ground (arith, plain) in
    let read = read_plain_lem s rest tail end in ground (arith, plain, read)

plain_cell :
    (s rest : Text)
    → any needs_quotes s ≡ false
    → starts_by_end rest ≡ true
    → read_cell (s ++ rest) ≡ some (s, rest)
unfolding read_cell
plain_cell [] [] plain end = refl
plain_cell [] (d ∷ rest) plain end =
    let read = read_plain_lem [] (d ∷ rest) plain end in ground (arith, end, read)
plain_cell (c ∷ s) rest plain end =
    let read = read_plain_lem (c ∷ s) rest plain end in ground (arith, plain, read)

quoted_cell :
    (s rest : Text)
    → starts_by_end rest ≡ true
    → read_cell ((34 ∷ doubled s ++ 34 ∷ []) ++ rest) ≡ some (s, rest)
unfolding read_cell
quoted_cell s rest end =
    ap read_quoted (append_assoc (doubled s) (34 ∷ []) rest) ∙ read_quoted-doubled s rest end

safe_cell :
    (s rest : Text)
    → starts_by_end rest ≡ true
    → read_cell ((if any needs_quotes s then 34 ∷ doubled s ++ 34 ∷ [] else s) ++ rest)
      ≡ some (s, rest)
safe_cell s rest end = elim (Bool-cases (any needs_quotes s)) [
  | inl quoted ↦ rw quoted (quoted_cell s rest end)
  | inr plain ↦ rw plain (plain_cell s rest plain end)
]

marked-dangerous : (raw : Text) → is_dangerous (if is_dangerous raw then 39 ∷ raw else raw) ≡ false
unfolding is_dangerous is_space
marked-dangerous raw = elim (Bool-cases (is_dangerous raw)) [
  | inl formula ↦ rw formula refl
  | inr harmless ↦ rw harmless harmless
]

-- If a cell is written before a comma, before the end of a line or at the end of the file, a reader
-- of CSV that stands at the cell gets its text and goes on behind it. The text is the one that was
-- put in, with an apostrophe before it where a spreadsheet would take it as a formula; and no
-- spreadsheet takes what was read as one.
pub csv_cell_lem :
    (raw rest : Text)
    → starts_by_end rest ≡ true
    → (text : Text) × (read_cell (csv_cell (some raw) ++ rest) ≡ some (text, rest))
      × (text ≡ (if is_dangerous raw then 39 ∷ raw else raw))
      × (is_dangerous text ≡ false)
unfolding csv_cell
csv_cell_lem raw rest end =
    let text = if is_dangerous raw then 39 ∷ raw else raw in
    let same : neutralised raw ≡ text =
      ap (λ (b : Bool). if b then 39 ∷ raw else raw) (formula-dangerous raw) in
    (
      text,
      safe_cell (neutralised raw) rest end ∙ ap (λ (t : Text). some (t, rest)) same,
      refl,
      marked-dangerous raw,
    )
