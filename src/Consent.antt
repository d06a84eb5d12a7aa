-- ===== src/Consent.antt =====
-- src/modules/user/consent, over the tables of src/modules/shared/database/schema/legal-document.schema.ts
-- and user-consent.schema.ts: the versions of legal documents, and the history of what users
-- accepted and revoked.
pub mod History
pub mod Currents
mod Tests
use nestjs_boilerplate.Base.{
  ℕ, ◌==◌, ltb, ◌≡◌, ◌&&◌, Bool, true, false, not, Option, none, some, List, [], ◌∷◌, head?, Text,
  text_eq, if◌then◌else◌, Result, ok, err, domain, failure, Action, pure, throw, gets, or_throw,
  ◌>>=◌, ◌>>◌,
}
use nestjs_boilerplate.Shared.Table.{Table}

pub data ConsentStatus : Type 0 where
  accepted revoked : ConsentStatus

-- A JSON object of localised texts.
abbrev pub Localized : Type 0
Localized = List (Text × Text)

pub record LegalDocument : Type 0 where
  pub id : ℕ
  pub slug : Text
  pub version : Text
  pub type : Text
  pub title : Localized
  pub content : Localized
  pub published_at : ℕ
  pub is_current : Bool

pub record UpsertDocumentParams : Type 0 where
  pub slug : Text
  pub version : Text
  pub type : Text
  pub title : Localized
  pub content : Localized
  pub is_current : Bool

pub record UserConsent : Type 0 where
  pub id : ℕ
  pub user_id : ℕ
  pub document_slug : Text
  pub document_version : Text
  pub status : ConsentStatus
  pub changed_at : ℕ
  pub ip_address : Option Text
  pub user_agent : Option Text

pub record RecordConsentParams : Type 0 where
  pub user_id : ℕ
  pub document_slug : Text
  pub document_version : Text
  pub status : ConsentStatus
  pub ip_address : Option Text
  pub user_agent : Option Text

-- The columns that an inserted consent keeps.
pub record Fits (new : RecordConsentParams) (c : UserConsent) : Type 0 where
  pub user_id : c.user_id ≡ new.user_id
  pub document_slug : c.document_slug ≡ new.document_slug
  pub document_version : c.document_version ≡ new.document_version
  pub status : c.status ≡ new.status

pub record ConsentPorts : Type 1 where
  pub documents : Table LegalDocument UpsertDocumentParams
  pub consents : Table UserConsent RecordConsentParams

module _ (p : ConsentPorts) where
  pub record World : Type 0 where
    pub documents : p.documents.Db
    pub consents : p.consents.Db

-- `if (type)`: the empty string counts as nothing.
abbrev pub is_type : Option Text → LegalDocument → Bool
is_type (some (c ∷ s)) d = text_eq d.type (c ∷ s)
is_type _ d = true

abbrev pub is_current_of : Text → LegalDocument → Bool
is_current_of slug d = text_eq d.slug slug && d.is_current

abbrev pub is_version : Text → Text → LegalDocument → Bool
is_version slug version d = text_eq d.slug slug && text_eq d.version version

abbrev pub is_other_current : Text → Text → LegalDocument → Bool
is_other_current slug keep_version d =
    text_eq d.slug slug && (d.is_current && not (text_eq d.version keep_version))

abbrev pub demote : LegalDocument → LegalDocument
demote d = record d { is_current = false }

abbrev pub replace : UpsertDocumentParams → LegalDocument → LegalDocument
replace params d = record d {
  type = params.type;
  title = params.title;
  content = params.content;
  is_current = params.is_current;
}

abbrev pub is_consent_of : ℕ → Text → UserConsent → Bool
is_consent_of user_id slug c = c.user_id == user_id && text_eq c.document_slug slug

-- `orderBy(desc(changedAt))`
abbrev pub is_newer : UserConsent → UserConsent → Bool
is_newer c d = ltb d.changed_at c.changed_at

abbrev pub insert_newest : UserConsent → List UserConsent → List UserConsent
insert_newest c [] = c ∷ []
insert_newest c (d ∷ ds) = if is_newer d c then d ∷ insert_newest c ds else c ∷ d ∷ ds

abbrev pub newest_first : List UserConsent → List UserConsent
newest_first [] = []
newest_first (c ∷ cs) = insert_newest c (newest_first cs)

-- class ConsentRepository
module _ (p : ConsentPorts) where
  abbrev pub Method : Type 0 → Type 0
  Method A = Action (World p) A

  unfoldable pub find_current : Option Text → Method (List LegalDocument)
  find_current type =
      gets (λ w. p.documents.select_where (λ d. d.is_current && is_type type d) w.documents)

  unfoldable pub find_by_slug : Text → Method (Option LegalDocument)
  find_by_slug slug = gets (λ w. head? (p.documents.select_where (is_current_of slug) w.documents))

  unfoldable pub find_by_version : Text → Text → Method (Option LegalDocument)
  find_by_version slug version =
      gets (λ w. head? (p.documents.select_where (is_version slug version) w.documents))

  -- An insert that a unique index refuses is an error; a reply with no row is one too.
  abbrev pub document_reply :
      Option (List LegalDocument × p.documents.Db) → World p → Result LegalDocument × World p
  document_reply none w = throw (failure "unique violation") w
  document_reply (some (rows, documents)) w =
      or_throw (head? rows) (failure "Failed to upsert legal document row")
        (record w { documents = documents })

  unfoldable pub upsert_document : UpsertDocumentParams → Method LegalDocument
  upsert_document params w =
      document_reply
        (p.documents.upsert params (is_version params.slug params.version) (replace params)
          w.documents)
        w

  unfoldable pub clear_other_currents : Text → Text → Method (Unit {0})
  clear_other_currents slug keep_version w = (
    ok tt,
    record w {
      documents =
          (p.documents.update_where (is_other_current slug keep_version) demote w.documents).1;
    },
  )

  abbrev pub consent_reply :
      Option (List UserConsent × p.consents.Db) → World p → Result UserConsent × World p
  consent_reply none w = throw (failure "insert refused") w
  consent_reply (some (rows, consents)) w =
      or_throw (head? rows) (failure "Failed to insert user consent row")
        (record w { consents = consents })

  unfoldable pub record_consent : RecordConsentParams → Method UserConsent
  record_consent params w = consent_reply (p.consents.insert (params ∷ []) w.consents) w

  unfoldable pub find_latest_consent : ℕ → Text → Method (Option UserConsent)
  find_latest_consent user_id slug =
      gets (λ w.
        head? (newest_first (p.consents.select_where (is_consent_of user_id slug) w.consents)))

  unfoldable pub find_consents_for_user : ℕ → Method (List UserConsent)
  find_consents_for_user user_id =
      gets (λ w. newest_first (p.consents.select_where (λ c. c.user_id == user_id) w.consents))

-- interface ConsentContext: what is known of the request.
pub record ConsentContext : Type 0 where
  pub ip_address : Option Text
  pub user_agent : Option Text

-- `context?.ipAddress ?? null`
abbrev pub context_ip : Option ConsentContext → Option Text
context_ip none = none
context_ip (some context) = context.ip_address

abbrev pub context_agent : Option ConsentContext → Option Text
context_agent none = none
context_agent (some context) = context.user_agent

-- class ConsentService
module _ (p : ConsentPorts) where
  unfoldable pub record_status :
      ℕ → Text → Text → ConsentStatus → Option ConsentContext → Method p UserConsent
  unfolding find_by_version record_consent
  record_status user_id document_slug document_version status context =
      find_by_version p document_slug document_version >>= λ document.
      or_throw document (domain "LEGAL_DOCUMENT_NOT_FOUND_BY_SLUG")
      >> record_consent p (record {
        user_id = user_id;
        document_slug = document_slug;
        document_version = document_version;
        status = status;
        ip_address = context_ip context;
        user_agent = context_agent context;
      })

  unfoldable pub accept : ℕ → Text → Text → Option ConsentContext → Method p UserConsent
  unfolding record_status
  accept user_id document_slug document_version context =
      record_status user_id document_slug document_version accepted context

  unfoldable pub revoke : ℕ → Text → Text → Option ConsentContext → Method p UserConsent
  unfolding record_status
  revoke user_id document_slug document_version context =
      record_status user_id document_slug document_version revoked context

  unfoldable pub find_latest : ℕ → Text → Method p (Option UserConsent)
  unfolding find_latest_consent
  find_latest user_id slug = find_latest_consent p user_id slug

  unfoldable pub list_for_user : ℕ → Method p (List UserConsent)
  unfolding find_consents_for_user
  list_for_user user_id = find_consents_for_user p user_id
