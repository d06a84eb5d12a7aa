-- ===== src/Shared/Errors/Registry.antt =====
-- What the registry of errors holds once it is built.
use nestjs_boilerplate.Base.{
  ◌≡◌, ap, sym, ◌∙◌, none, some, List, [], ◌∷◌, ◌++◌, lookup, All, Text, text_eq, text_eq_refl, ok,
  Result-cases, Bool-cases, Option-cases, inl, inr, arith,
}
use nestjs_boilerplate.Shared.Errors.Catalogs.{ErrorCodeDefinition}
use nestjs_boilerplate.Shared.Errors.{Registry, add_definitions, add_catalogs, build_registry}

lookup-append :
    (k : Text) (d : ErrorCodeDefinition) (r s : Registry)
    → lookup k r ≡ some d
    → lookup k (r ++ s) ≡ some d
lookup-append k d [] s h = ground (arith, h)
lookup-append k d ((j, e) ∷ r) s h = ground (arith, h, lookup-append k d r s)

lookup_last :
    (k : Text) (d : ErrorCodeDefinition) (r : Registry)
    → lookup k r ≡ none
    → lookup k (r ++ (k, d) ∷ []) ≡ some d
lookup_last k d [] h = let same = text_eq_refl k in ground (arith, same)
lookup_last k d ((j, e) ∷ r) h = elim (Bool-cases (text_eq j k)) [
  | inl same ↦ ground (arith, same, h)
  | inr other ↦ ground (arith, other, h, lookup_last k d r)
]

abbrev Keeps : Registry → Registry → Type 0
Keeps r s = (k : Text) (d : ErrorCodeDefinition) → lookup k r ≡ some d → lookup k s ≡ some d

abbrev pub Holds : Registry → List ErrorCodeDefinition → Type 0
Holds r ds = All (λ (d : ErrorCodeDefinition). lookup d.code r ≡ some d) ds

add_definitions-Holds :
    (ds : List ErrorCodeDefinition) (r r' : Registry)
    → add_definitions ds r ≡ ok r'
    → Keeps r r' × Holds r' ds
add_definitions-Holds [] r r' built =
    let same : r ≡ r' = ground (arith, built) in
    (λ k d h. ap (λ (x : Registry). lookup k x) (sym same) ∙ h, tt)
add_definitions-Holds (d ∷ ds) r r' built = elim (Option-cases (lookup d.code r)) [
  | inr (old, there) ↦ ground (arith, there, built)
  | inl new ↦
      let rest = add_definitions-Holds ds (r ++ (d.code, d) ∷ []) r' (ground (arith, new, built)) in
      (
        λ k e h. rest.0 k e (lookup-append k e r ((d.code, d) ∷ []) h),
        (rest.0 d.code d (lookup_last d.code d r new), rest.1),
      )
]

add_catalogs-Holds :
    (cs : List (List ErrorCodeDefinition)) (r r' : Registry)
    → add_catalogs cs r ≡ ok r'
    → Keeps r r' × All (Holds r') cs
add_catalogs-Holds [] r r' built =
    let same : r ≡ r' = ground (arith, built) in
    (λ k d h. ap (λ (x : Registry). lookup k x) (sym same) ∙ h, tt)
add_catalogs-Holds (c ∷ cs) r r' built = elim (Result-cases (add_definitions c r)) [
  | inr (e, failed) ↦ ground (arith, failed, built)
  | inl (mid, added) ↦
      let first = add_definitions-Holds c r mid added in
      let rest = add_catalogs-Holds cs mid r' (ground (arith, added, built)) in
      (λ k d h. rest.0 k d (first.0 k d h), (kept c mid r' rest.0 first.1, rest.1))
]
  where
    kept : (ds : List ErrorCodeDefinition) (r r' : Registry) → Keeps r r' → Holds r ds → Holds r' ds
    kept [] r r' keeps holds = tt
    kept (d ∷ ds) r r' keeps (here, holds) = (keeps d.code d here, kept ds r r' keeps holds)

-- Once the registry is built, every definition of every catalog is the one that its code resolves
-- to.
pub build_registry-Holds :
    (cs : List (List ErrorCodeDefinition)) (r : Registry)
    → build_registry cs ≡ ok r
    → All (Holds r) cs
unfolding build_registry
build_registry-Holds cs r built = (add_catalogs-Holds cs [] r built).1
