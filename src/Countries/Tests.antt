-- ===== src/Countries/Tests.antt =====
-- The catalogue with the alphabet as its order.
use nestjs_boilerplate.Base.{
  ◌≡◌, refl, some, ◌∷◌, [], ltb, Bool, true, false, not, Text, text_eq, codes, is_ok, answer,
}
use nestjs_boilerplate.Countries.Timezones.{get_timezone_from_country, country_timezone_map}
use nestjs_boilerplate.Countries.Data.{countries_data}
use nestjs_boilerplate.Countries.{Locale, to_upper_case, get_country, on_application_bootstrap}
use nestjs_boilerplate.Countries.Codes.{fits, get_country_lem}

abbrev precedes : Text → Text → Bool
precedes [] t = true
precedes (c ∷ s) [] = false
precedes (c ∷ s) (d ∷ t) = not (ltb d c)

abbrev alphabet : Locale
alphabet = record { precedes = precedes; wide_lower = λ s. s; wide_upper = λ s. s }

get_country_lem_example :
    (is_ok (get_country alphabet (on_application_bootstrap alphabet) (codes "tr")) ≡ true)
    × (fits alphabet
          (codes "TR")
          (answer (get_country alphabet (on_application_bootstrap alphabet) (codes "tr")))
        ≡ true)
unfolding countries_data text_eq to_upper_case
get_country_lem_example = get_country_lem alphabet (codes "tr")

timezone_test :
    get_timezone_from_country (to_upper_case (λ s. s)) (codes "ie") ≡ some (codes "Europe/Dublin")
unfolding get_timezone_from_country country_timezone_map to_upper_case text_eq
timezone_test = refl
