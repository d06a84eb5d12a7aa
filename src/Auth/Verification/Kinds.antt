-- ===== src/Auth/Verification/Kinds.antt =====
-- A session that was minted for one flow of src/modules/platform/auth/auth.service.ts is refused by the
-- endpoints of the others.
use nestjs_boilerplate.Base.{
  ◌≡◌, ◌≢◌, refl, Option, none, some, Text, err, bad_request, ◌∙◌, ap, sym, [], ◌∷◌,
}
use nestjs_boilerplate.Shared.Redis.{Laws}
use nestjs_boilerplate.Auth.Sessions.{Session}
use nestjs_boilerplate.Auth.Services.{Services, World}
use nestjs_boilerplate.Auth.Limits.{parsed}
use nestjs_boilerplate.Auth.Limits.Attempts.{stored}
use nestjs_boilerplate.Auth.Verification.Shape.{verification_other_kind}
use nestjs_boilerplate.Auth.Verification.Soundness.{JsonLaws}
use nestjs_boilerplate.Auth.Verification.Endpoints.{
  Flow, verify_email, email_login, phone_register, phone_login, key_of, endpoint, as_kind, continue,
  endpoint-verification,
}

-- The flow that mints a session.
abbrev pub minted_by : Session → Option Flow
minted_by (Session.email_verify _ _ _) = some verify_email
minted_by (Session.email_login _ _ _) = some email_login
minted_by (Session.phone_register _ _ _) = some phone_register
minted_by (Session.phone_login _ _ _) = some phone_login
minted_by Session.other = none

as_kind_apart :
    (f : Flow) (session : Session) → minted_by session ≢ some f → as_kind f session ≡ none
as_kind_apart verify_email (Session.email_verify _ _ _) h = absurd (h refl)
as_kind_apart verify_email _ h = refl
as_kind_apart email_login (Session.email_login _ _ _) h = absurd (h refl)
as_kind_apart email_login _ h = refl
as_kind_apart phone_register (Session.phone_register _ _ _) h = absurd (h refl)
as_kind_apart phone_register _ h = refl
as_kind_apart phone_login (Session.phone_login _ _ _) h = absurd (h refl)
as_kind_apart phone_login _ h = refl

parsed_payload :
    (s : Services)
    → JsonLaws s
    → (session : Session) → parsed s (some (s.stringify session)) ≡ some session
parsed_payload s json session = go (s.stringify session) refl
  where
    go : (t : Text) → s.stringify session ≡ t → parsed s (some t) ≡ some session
    go [] e = absurd (json.stringify_nonempty session e)
    go (c ∷ t) e = ap s.parse (sym e) ∙ json.parse-stringify session

-- Where the key of an endpoint holds the payload of another flow's session, the endpoint refuses
-- every code for its kind, and changes nothing: no failure is counted and the session stays.
pub endpoint_other_flow :
    (s : Services) (laws : Laws s.redis) (json : JsonLaws s) (f : Flow) (session : Session)
    (token submitted : Text) (w : World s)
    → minted_by session ≢ some f
    → stored s laws (key_of f token) w ≡ some (s.stringify session)
    → endpoint s f token submitted w ≡ (err (bad_request "Invalid session type"), w)
endpoint_other_flow s laws json f session token submitted w apart held =
    endpoint-verification s laws f token submitted w
    ∙ verification_other_kind s laws (as_kind f) (key_of f token) submitted (continue s f) w session
        (ap (parsed s) held ∙ parsed_payload s json session) (as_kind_apart f session apart)
