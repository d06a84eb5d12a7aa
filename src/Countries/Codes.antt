-- ===== src/Countries/Codes.antt =====
-- Which codes `getByCode` knows.
use nestjs_boilerplate.Base.{
  ◌≡◌, refl, ap, sym, answer, ◌∙◌, ◌||◌, Bool, true, false, Option, none, some, List, [], ◌∷◌, map,
  any, Text, text_eq, lookup, set_key, lookup-set_key, Result, ok, err, is_ok, arith, Bool-cases,
  Option-cases, inl, inr,
}
use nestjs_boilerplate.Countries.Data.{CountryRow, countries_data}
use nestjs_boilerplate.Countries.{
  CountryDto, Locale, Loaded, index, enrich, insert_by_name, sort_by_name, load,
  on_application_bootstrap, to_upper_case, get_by_code, get_country,
}

abbrev has_code : Text → CountryDto → Bool
has_code code c = text_eq c.code code

-- A country that is there, with the code.
abbrev pub is_of_code : Text → Option CountryDto → Bool
is_of_code code none = false
is_of_code code (some c) = text_eq c.code code

abbrev is_some : Option CountryDto → Bool
is_some none = false
is_some (some c) = true

index_found :
    (k : Text) (cs : List CountryDto) (es : List (Text × CountryDto))
    → is_some (lookup k (index cs es)) ≡ (any (has_code k) cs || is_some (lookup k es))
index_found k [] es = refl
index_found k (c ∷ cs) es =
    let rest = index_found k cs (set_key c.code c es) in
    let put = ap (λ (o : Option CountryDto). is_some o) (lookup-set_key k c.code c es) in
    elim (Bool-cases (text_eq c.code k)) [
      | inl same ↦ ground (arith, rest, put, same)
      | inr other ↦ ground (arith, rest, put, other)
    ]

-- An entry stands under its country's code.
abbrev IsKeyed : Text → List (Text × CountryDto) → Type 0
IsKeyed k es = (c : CountryDto) → lookup k es ≡ some c → text_eq c.code k ≡ true

set_key-IsKeyed :
    (k : Text) (d : CountryDto) (es : List (Text × CountryDto))
    → IsKeyed k es
    → IsKeyed k (set_key d.code d es)
set_key-IsKeyed k d es keyed c found =
    let put = lookup-set_key k d.code d es in
    elim (Bool-cases (text_eq d.code k)) [
      | inl same ↦
          let e : d ≡ c = ground (arith, put, same, found) in
          ap (λ (x : CountryDto). text_eq x.code k) (sym e) ∙ same
      | inr other ↦ keyed c (ground (arith, put, other, found))
    ]

index-IsKeyed :
    (k : Text) (cs : List CountryDto) (es : List (Text × CountryDto))
    → IsKeyed k es
    → IsKeyed k (index cs es)
index-IsKeyed k [] es keyed = keyed
index-IsKeyed k (c ∷ cs) es keyed =
    index-IsKeyed k cs (set_key c.code c es) (set_key-IsKeyed k c es keyed)

module _ (l : Locale) where
  any-insert_by_name :
      (g : CountryDto → Bool) (c : CountryDto) (cs : List CountryDto)
      → any g (insert_by_name l c cs) ≡ (g c || any g cs)
  any-insert_by_name g c [] = refl
  any-insert_by_name g c (d ∷ ds) = ground (arith, any-insert_by_name g c ds)

  any-sort_by_name :
      (g : CountryDto → Bool) (cs : List CountryDto) → any g (sort_by_name l cs) ≡ any g cs
  any-sort_by_name g [] = refl
  any-sort_by_name g (c ∷ cs) =
      any-insert_by_name g c (sort_by_name l cs)
      ∙ ap (λ (b : Bool). g c || b) (any-sort_by_name g cs)

  any-enrich :
      (k : Text) (rows : List CountryRow)
      → any (has_code k) (map (enrich l) rows) ≡ any (λ r. text_eq r.code k) rows
  any-enrich k [] = refl
  any-enrich k (r ∷ rows) = ap (λ (b : Bool). text_eq r.code k || b) (any-enrich k rows)

  -- What `getByCode` finds has the code.
  abbrev pub fits : Text → Option CountryDto → Bool
  fits k none = true
  fits k (some c) = text_eq c.code k

  fits_lem :
      (k : Text) (o : Option CountryDto)
      → ((c : CountryDto) → o ≡ some c → text_eq c.code k ≡ true)
      → fits k o ≡ true
  fits_lem k none right = refl
  fits_lem k (some c) right = right c refl

  load_lem :
      (k : Text) (rows : List CountryRow)
      → (is_some (lookup k (load l rows).by_code) ≡ any (λ r. text_eq r.code k) rows)
        × (fits k (lookup k (load l rows).by_code) ≡ true)
  load_lem k rows =
      let sorted = sort_by_name l (map (enrich l) rows) in
      let found = index_found k sorted [] in
      let same = any-sort_by_name (has_code k) (map (enrich l) rows) ∙ any-enrich k rows in
      (
        ground (arith, found, same),
        fits_lem k (lookup k (index sorted []))
            (index-IsKeyed k sorted [] (λ c none_is. ground (arith, none_is))),
      )

  answer-get_country :
      (s : Loaded) (code : Text) → answer (get_country l s code) ≡ get_by_code l s code
  unfolding get_country
  answer-get_country s code = elim (Option-cases (get_by_code l s code)) [
    | inl nothing ↦ ground (arith, nothing)
    | inr (c, found) ↦ ground (arith, found)
  ]

  is_ok-answer : (r : Result CountryDto) → is_ok r ≡ is_some (answer r)
  is_ok-answer (ok c) = refl
  is_ok-answer (err e) = refl

  -- `GET /countries/:code` answers with a country exactly if the catalogue has a row with the code,
  -- its letters in upper case; and the country that it answers with has that code.
  pub get_country_lem :
      (code : Text)
      → let reply = get_country l (on_application_bootstrap l) code in
        let k = to_upper_case l.wide_upper code in
        (is_ok reply ≡ any (λ r. text_eq r.code k) countries_data) × (fits k (answer reply) ≡ true)
  unfolding get_by_code on_application_bootstrap
  get_country_lem code =
      let k = to_upper_case l.wide_upper code in
      let (found, right) = load_lem k countries_data in
      let same = answer-get_country (on_application_bootstrap l) code in
      (
        is_ok-answer (get_country l (on_application_bootstrap l) code)
            ∙ ap (λ (o : Option CountryDto). is_some o) same
            ∙ found,
        ap (λ (o : Option CountryDto). fits k o) same ∙ right,
      )
