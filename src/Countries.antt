-- ===== src/Countries.antt =====
-- src/modules/user/countries: the catalogue that countries.service.ts holds in memory, and the two
-- endpoints of countries.controller.ts.
pub mod Data
pub mod Timezones
pub mod Codes
mod Tests
use nestjs_boilerplate.Base.{
  ℕ, ◌+◌, ◌-◌, leb, ltb, ◌&&◌, Bool, true, false, not, Option, none, some, List, [], ◌∷◌, ◌++◌, map,
  filter, all, includes, Text, codes, lookup, set_key, or_default, if◌then◌else◌, Result, ok, err,
  domain,
}
use nestjs_boilerplate.Auth.Normalize.{trim, to_lower_case}
use nestjs_boilerplate.Shared.Users.{truthy}
use nestjs_boilerplate.Countries.Data.{CountryRow, countries_data}
use nestjs_boilerplate.Countries.Timezones.{get_timezone_from_country}

pub record CountryDto : Type 0 where
  pub name : Text
  pub code : Text
  pub timezone : Text
  pub flag_url : Text

-- `a.localeCompare(b) <= 0`, and the cases of strings outside ASCII.
pub record Locale : Type 0 where
  pub precedes : Text → Text → Bool
  pub wide_lower : Text → Text
  pub wide_upper : Text → Text

abbrev upper : ℕ → ℕ
upper c = if leb b'a' c && leb c b'z' then c - 32 else c

-- `s.toUpperCase()`
unfoldable pub to_upper_case : (Text → Text) → Text → Text
to_upper_case wide s = if all (λ c. ltb c 128) s then map upper s else wide s

-- The catalogue sorted by name, and the map by code.
pub record Loaded : Type 0 where
  pub countries : List CountryDto
  pub by_code : List (Text × CountryDto)

abbrev pub index : List CountryDto → List (Text × CountryDto) → List (Text × CountryDto)
index [] entries = entries
index (c ∷ cs) entries = index cs (set_key c.code c entries)

module _ (l : Locale) where
  abbrev pub enrich : CountryRow → CountryDto
  enrich r = record {
    name = r.name;
    code = r.code;
    timezone =
        or_default (get_timezone_from_country (to_upper_case l.wide_upper) r.code) (codes "UTC");
    flag_url =
        codes "https://flagcdn.com/w320/" ++ (to_lower_case l.wide_lower r.code ++ codes ".png");
  }

  -- `sort`, which keeps the order of equals.
  abbrev pub insert_by_name : CountryDto → List CountryDto → List CountryDto
  insert_by_name c [] = c ∷ []
  insert_by_name c (d ∷ ds) =
      if l.precedes c.name d.name then c ∷ d ∷ ds else d ∷ insert_by_name c ds

  abbrev pub sort_by_name : List CountryDto → List CountryDto
  sort_by_name [] = []
  sort_by_name (c ∷ cs) = insert_by_name c (sort_by_name cs)

  abbrev pub load : List CountryRow → Loaded
  load rows =
      let enriched = sort_by_name (map enrich rows) in
      record { countries = enriched; by_code = index enriched [] }

  unfoldable pub on_application_bootstrap : Loaded
  on_application_bootstrap = load countries_data

  unfoldable pub search : Loaded → Text → List CountryDto
  search s query = found (to_lower_case l.wide_lower (trim query))
    where
      found : Text → List CountryDto
      found [] = s.countries
      found (c ∷ needle) =
          filter (λ d. includes (c ∷ needle) (to_lower_case l.wide_lower d.name)) s.countries

  unfoldable pub get_by_code : Loaded → Text → Option CountryDto
  get_by_code s code = lookup (to_upper_case l.wide_upper code) s.by_code

  -- `GET /countries`
  unfoldable pub list : Loaded → Option Text → List CountryDto
  list s query = answer (truthy query)
    where
      answer : Option Text → List CountryDto
      answer none = s.countries
      answer (some query) = search s query

  -- `GET /countries/:code`
  unfoldable pub get_country : Loaded → Text → Result CountryDto
  get_country s code = answer (get_by_code s code)
    where
      answer : Option CountryDto → Result CountryDto
      answer none = err (domain "COMMON_NOT_FOUND")
      answer (some c) = ok c
