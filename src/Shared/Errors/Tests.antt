-- ===== src/Shared/Errors/Tests.antt =====
-- The catalogs of the program, and answers to errors.
use nestjs_boilerplate.Base.{◌≡◌, refl, ◌∷◌, [], true, none, some, text_eq, codes, is_ok}
use nestjs_boilerplate.Shared.Errors.{
  catalogs, build_registry, interpolate, fill, resolve, http_exception,
}

build_registry_test : is_ok (build_registry catalogs) ≡ true
unfolding build_registry text_eq
build_registry_test = refl

interpolate_test :
    interpolate (codes "Bug report {id} not {found}") (some ((codes "id", codes "7") ∷ []))
    ≡ codes "Bug report 7 not {found}"
unfolding interpolate fill text_eq
interpolate_test = refl

-- Too many requests are answered as an internal error.
resolve_test : (resolve [] (http_exception 429 none)).code ≡ codes "COMMON_INTERNAL_ERROR"
unfolding resolve
resolve_test = refl
