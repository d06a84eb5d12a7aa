-- ===== src/Shared/Errors.antt =====
-- src/modules/shared/common/errors: error-registry.ts and domain.exception.ts, and
-- filters/http-exception.filter.ts, which turns what was thrown into the answer.
pub mod Catalogs
pub mod Registry
mod Tests
use nestjs_boilerplate.Base.{
  ℕ, zero, suc, ◌+◌, ◌==◌, leb, ◌&&◌, ◌||◌, Bool, true, false, Option, none, some, List, [], ◌∷◌,
  ◌++◌, map, length, lookup, or_default, Text, codes, text_eq, if◌then◌else◌, Result, ok, err,
  failure,
}
use nestjs_boilerplate.Shared.Errors.Catalogs.{
  ErrorCodeDefinition, common_errors, auth_errors, user_errors, storage_errors, media_errors,
  legal_documents_errors, bug_report_errors, notification_errors,
}

abbrev pub catalogs : List (List ErrorCodeDefinition)
catalogs =
    common_errors ∷ auth_errors ∷ user_errors ∷ storage_errors ∷ media_errors
    ∷ legal_documents_errors ∷ bug_report_errors ∷ notification_errors ∷ []

-- A registry is keyed by code.
abbrev pub Registry : Type 0
Registry = List (Text × ErrorCodeDefinition)

abbrev pub is_registered : Text → Registry → Bool
is_registered code registry = registered (lookup code registry)
  where
    registered : Option ErrorCodeDefinition → Bool
    registered none = false
    registered (some d) = true

-- A code that is there already stops the program at its start.
abbrev pub add_definitions : List ErrorCodeDefinition → Registry → Result Registry
add_definitions [] registry = ok registry
add_definitions (d ∷ ds) registry =
    let rest = add_definitions ds (registry ++ (d.code, d) ∷ []) in
    elim (is_registered d.code registry) [
      | true ↦ err (failure "Duplicate error code detected across error catalogs")
      | false ↦ rest
    ]

abbrev pub add_catalogs : List (List ErrorCodeDefinition) → Registry → Result Registry
add_catalogs [] registry = ok registry
add_catalogs (catalog ∷ rest) registry =
    let more = add_catalogs rest in
    elim (add_definitions catalog registry) [ ok registry' ↦ more registry' | err e ↦ err e ]

unfoldable pub build_registry : List (List ErrorCodeDefinition) → Result Registry
build_registry cs = add_catalogs cs []

-- COMMON_ERRORS[CommonErrorCode.INTERNAL_ERROR]
abbrev pub internal_error : ErrorCodeDefinition
internal_error = record {
  code = codes "COMMON_INTERNAL_ERROR";
  http_status = 500;
  message = codes "Internal server error";
}

abbrev pub resolve_error_definition : Registry → Text → ErrorCodeDefinition
resolve_error_definition registry code = or_default (lookup code registry) internal_error

-- `\w`
abbrev is_word : ℕ → Bool
is_word c =
    (leb b'a' c && leb c b'z')
    || (leb b'A' c && leb c b'Z')
    || (leb b'0' c && leb c b'9')
    || c == b'_'

-- The key of a token `{key}`, of which the text is what follows the brace.
abbrev token : Text → Option Text
token [] = none
token (c ∷ s) =
    let rest = token s in if is_word c then longer c rest else if c == b'}' then some [] else none
  where
    longer : ℕ → Option Text → Option Text
    longer c none = none
    longer c (some key) = some (c ∷ key)

abbrev token_at : ℕ → Text → Option Text
token_at c s = if c == b'{' then some_key (token s) else none
  where
    some_key : Option Text → Option Text
    some_key (some (d ∷ key)) = some (d ∷ key)
    some_key _ = none

-- `template.replace(/\{(\w+)\}/g, …)`, for values as texts; `skip` counts the units of a token that
-- are still to be passed over.
unfoldable pub fill : List (Text × Text) → ℕ → Text → Text
fill params skip [] = []
fill params (suc skip) (c ∷ s) = fill params skip s
fill params zero (c ∷ s) =
    let other = fill params 0 s in
    elim (token_at c s) [
      | none ↦ c ∷ other
      | some key ↦
          or_default (lookup key params) (b'{' ∷ key ++ b'}' ∷ []) ++ fill params (length key + 1) s
    ]

unfoldable pub interpolate : Text → Option (List (Text × Text)) → Text
unfolding fill
interpolate template none = template
interpolate template (some params) = fill params 0 template

-- What a request can end with: a DomainException of a code, an HttpException with its status and the
-- messages of its payload (where these are a list of strings), or anything else.
pub data Thrown : Type 0 where
  domain_exception : Text → Option (List (Text × Text)) → Option (List Text) → Thrown
  http_exception : ℕ → Option (List Text) → Thrown
  other : Thrown

pub record Resolved : Type 0 where
  pub status : ℕ
  pub code : Text
  pub message : Text
  pub details : Option (List Text)

abbrev pub code_for_status : ℕ → Text
code_for_status status =
    if status == 400
    then codes "COMMON_VALIDATION_FAILED"
    else if status == 401
    then codes "COMMON_UNAUTHORIZED"
    else if status == 403
    then codes "COMMON_FORBIDDEN"
    else if status == 404
    then codes "COMMON_NOT_FOUND"
    else if status == 409
    then codes "COMMON_CONFLICT"
    else codes "COMMON_INTERNAL_ERROR"

-- The constructor of DomainException has resolved the code; `resolve` reads its payload.
unfoldable pub resolve : Registry → Thrown → Resolved
unfolding interpolate
resolve registry (domain_exception code params details) =
    let d = resolve_error_definition registry code in
    record {
      status = d.http_status;
      code = d.code;
      message = interpolate d.message params;
      details = details;
    }
resolve registry (http_exception status messages) =
    let code = code_for_status status in
    record {
      status = status;
      code = code;
      message = (resolve_error_definition registry code).message;
      details = messages;
    }
resolve registry other =
    let d = resolve_error_definition registry (codes "COMMON_INTERNAL_ERROR") in
    record { status = d.http_status; code = d.code; message = d.message; details = none }
