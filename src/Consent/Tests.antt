-- ===== src/Consent/Tests.antt =====
-- Runs of the consent service on concrete inputs.
use nestjs_boilerplate.Base.{
  is_ok, ℕ, ◌&&◌, ◌≡◌, refl, ltb, Bool, true, false, none, some, [], ◌∷◌, all, filter, Text,
  text_eq, codes, ok, arith, ◌⊎◌, if◌then◌else◌,
}
use nestjs_boilerplate.Shared.Table.{TableLaws}
use nestjs_boilerplate.Shared.Table.Listed.{Contents, listed, listed-TableLaws}
use nestjs_boilerplate.Consent.{
  ConsentPorts, World, LegalDocument, UpsertDocumentParams, UserConsent, RecordConsentParams, Fits,
  accepted, revoked, is_current_of, is_consent_of, find_latest, find_by_version, record_status,
  clear_other_currents, revoke,
}
use nestjs_boilerplate.Consent.History.{record_status_decides, to_params}
use nestjs_boilerplate.Consent.Currents.{stays_current, clear_other_currents_lem}

abbrev new_document : ℕ → UpsertDocumentParams → LegalDocument
new_document n new = record {
  id = n;
  slug = new.slug;
  version = new.version;
  type = new.type;
  title = new.title;
  content = new.content;
  published_at = n;
  is_current = new.is_current;
}

abbrev new_consent : ℕ → RecordConsentParams → UserConsent
new_consent n new = record {
  id = n;
  user_id = new.user_id;
  document_slug = new.document_slug;
  document_version = new.document_version;
  status = new.status;
  changed_at = n;
  ip_address = new.ip_address;
  user_agent = new.user_agent;
}

-- The two unique indices of the documents.
abbrev clashes : UpsertDocumentParams → LegalDocument → Bool
clashes new d =
    text_eq d.slug new.slug
    && (if text_eq d.version new.version then true else d.is_current && new.is_current)

abbrev ports : ConsentPorts
ports = record {
  documents = listed new_document clashes;
  consents = listed new_consent (λ new c. false);
}

abbrev terms : Text
terms = codes "terms"

abbrev version_1 : Text
version_1 = codes "1"

abbrev document : ℕ → Text → Bool → LegalDocument
document n version is_current = record {
  id = n;
  slug = terms;
  version = version;
  type = codes "LEGAL_CONSENT";
  title = [];
  content = [];
  published_at = n;
  is_current = is_current;
}

abbrev consent : UserConsent
consent = new_consent 1 (to_params 7 terms version_1 accepted none)

abbrev before : World ports
before = record {
  documents = record { serial = 2; list = document 1 version_1 true ∷ [] };
  consents = record { serial = 2; list = consent ∷ [] };
}

consents-TableLaws : TableLaws Fits ports.consents
consents-TableLaws =
    listed-TableLaws new_consent (λ new c. false) Fits
      (λ n new. record {
        user_id = refl;
        document_slug = refl;
        document_version = refl;
        status = refl;
      })

documents-TableLaws : TableLaws (λ new row. Unit) ports.documents
documents-TableLaws = listed-TableLaws new_document clashes (λ new row. Unit) (λ n new. tt)

-- The next row is stamped later than the rows of the table.
stamped :
    (new : RecordConsentParams) (row : UserConsent) (db : Contents UserConsent)
    → ports.consents.insert (new ∷ []) before.consents ≡ some (row ∷ [], db)
    → all (λ c. ltb c.changed_at row.changed_at) (consent ∷ []) ≡ true
stamped new row db inserted =
    let stamp : row.changed_at ≡ 2 = ground (arith, inserted) in ground (arith, stamp)

record_status_decides_example :
    let r = (record_status ports 7 terms version_1 revoked none before).0 in
    let w' = (record_status ports 7 terms version_1 revoked none before).1 in
    ((is_ok r ≡ false) × (w' ≡ before))
    ⊎ ((row : UserConsent) × (r ≡ ok row)
        × ((document : LegalDocument) × ((find_by_version ports terms version_1 before).0
              ≡ ok (some document)))
        × (w'.consents.list ≡ consent ∷ row ∷ [])
        × Fits (to_params 7 terms version_1 revoked none) row
        × ((find_latest ports 7 terms w').0 ≡ (
            if is_consent_of 7 terms row
            then ok (some row)
            else (find_latest ports 7 terms before).0)))
record_status_decides_example =
    record_status_decides ports consents-TableLaws 7 terms version_1 revoked none before 7 terms
      stamped

-- The consent is revoked, and the history has both rows.
revoke_test :
    (find_latest ports 7 terms (revoke ports 7 terms version_1 none before).1).0
    ≡ ok (some (new_consent 2 (to_params 7 terms version_1 revoked none)))
unfolding find_latest revoke text_eq
revoke_test = refl

abbrev two_current : World ports
two_current = record before {
  documents = record {
    serial = 3;
    list = document 1 version_1 true ∷ document 2 (codes "2") true ∷ [];
  };
}

clear_other_currents_lem_example :
    filter
      (is_current_of terms)
      (clear_other_currents ports terms (codes "2") two_current).1.documents.list
    ≡ filter (stays_current terms (codes "2") terms) two_current.documents.list
clear_other_currents_lem_example =
    clear_other_currents_lem ports documents-TableLaws terms (codes "2") terms two_current
