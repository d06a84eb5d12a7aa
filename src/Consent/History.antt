-- ===== src/Consent/History.antt =====
-- The history of consents is the record of a map from a user and a document to the last transition.
use nestjs_boilerplate.Base.{
  is_ok, ℕ, ltb, ◌≡◌, refl, ap, sym, ◌∙◌, Bool, true, false, Option, some, List, [], ◌∷◌, ◌++◌,
  head?, filter, filter-append, append_nil, all, Text, if◌then◌else◌, Result, ok, Option-cases,
  Bool-cases, inl, inr, arith, ◌⊎◌,
}
use nestjs_boilerplate.Shared.Table.{TableLaws}
use nestjs_boilerplate.Consent.{
  LegalDocument, ConsentPorts, World, ConsentStatus, ConsentContext, UserConsent,
  RecordConsentParams, Fits, is_consent_of, is_version, insert_newest, newest_first, record_consent,
  find_by_version, find_latest_consent, find_latest, record_status, context_ip, context_agent,
}

head-insert_newest :
    (c d : UserConsent) (ds : List UserConsent)
    → ltb c.changed_at d.changed_at ≡ true
    → head? ds ≡ some d
    → head? (insert_newest c ds) ≡ some d
head-insert_newest c d [] later h = ground (arith, h)
head-insert_newest c d (e ∷ ds) later h =
    let same : e ≡ d = ground (arith, h) in
    let later' : ltb c.changed_at e.changed_at ≡ true =
      ap (λ (x : UserConsent). ltb c.changed_at x.changed_at) same ∙ later in
    rw later' h

-- The row with the latest stamp stands in front.
head-newest_first :
    (cs : List UserConsent) (d : UserConsent)
    → all (λ c. ltb c.changed_at d.changed_at) cs ≡ true
    → head? (newest_first (cs ++ d ∷ [])) ≡ some d
head-newest_first [] d later = refl
head-newest_first (c ∷ cs) d later =
    head-insert_newest c d (newest_first (cs ++ d ∷ [])) (ground (arith, later))
      (head-newest_first cs d (ground (arith, later)))

all-filter :
    (q p : UserConsent → Bool) (cs : List UserConsent)
    → all q cs ≡ true
    → all q (filter p cs) ≡ true
all-filter q p [] h = refl
all-filter q p (c ∷ cs) h =
    let rest = all-filter q p cs in
    elim (Bool-cases (p c)) [
      | inl keep ↦ ground (arith, rest, keep, h)
      | inr drop ↦ ground (arith, rest, drop, h)
    ]

abbrev pub to_params : ℕ → Text → Text → ConsentStatus → Option ConsentContext → RecordConsentParams
to_params user_id slug version status context = record {
  user_id = user_id;
  document_slug = slug;
  document_version = version;
  status = status;
  ip_address = context_ip context;
  user_agent = context_agent context;
}

module _ (p : ConsentPorts) (laws : TableLaws Fits p.consents) where
  abbrev rows : World p → List UserConsent
  rows w = p.consents.rows w.consents

  -- What a query sees of a row that was appended.
  find_latest_append :
      (user_id : ℕ) (slug : Text) (w w' : World p) (row : UserConsent)
      → rows w' ≡ rows w ++ row ∷ []
      → all (λ c. ltb c.changed_at row.changed_at) (rows w) ≡ true
      → (find_latest p user_id slug w').0 ≡ (
          if is_consent_of user_id slug row
          then ok (some row)
          else (find_latest p user_id slug w).0)
  unfolding find_latest find_latest_consent
  find_latest_append user_id slug w w' row appended later =
      let seen = laws.select-rows (is_consent_of user_id slug) w.consents in
      let seen' = laws.select-rows (is_consent_of user_id slug) w'.consents in
      let chain = seen' ∙ ap (filter (is_consent_of user_id slug)) appended in
      let split = filter-append (is_consent_of user_id slug) (rows w) (row ∷ []) in
      let front = head-newest_first (filter (is_consent_of user_id slug) (rows w)) row (
        all-filter (λ c. ltb c.changed_at row.changed_at) (is_consent_of user_id slug) (rows w)
          later) in
      elim (Bool-cases (is_consent_of user_id slug row)) [
        | inl own ↦
            let all_rows = chain ∙ (rw own at split) in
            rw own (
              ap (λ (l : List UserConsent). ok (head? (newest_first l))) all_rows
              ∙ ap (λ (o : Option UserConsent). ok o) front)
        | inr other ↦
            let all_rows =
              chain
              ∙ (rw other at split)
              ∙ append_nil (filter (is_consent_of user_id slug) (rows w))
              ∙ sym seen in
            rw other (ap (λ (l : List UserConsent). ok (head? (newest_first l))) all_rows)
      ]

  -- If a new row of the history is stamped later than the rows that are there: each accept or
  -- revoke either fails and changes nothing, or is of a version of the document that exists, and
  -- then appends one row. After it the latest consent of that user and document is the row, and the
  -- latest of every other user or document is as before.
  pub record_status_decides :
      (user_id : ℕ) (slug version : Text) (status : ConsentStatus) (context : Option ConsentContext)
      (w : World p) (other_id : ℕ) (other_slug : Text)
      → ((new : RecordConsentParams) (row : UserConsent) (db : p.consents.Db)
          → p.consents.insert (new ∷ []) w.consents ≡ some (row ∷ [], db)
          → all (λ c. ltb c.changed_at row.changed_at) (rows w) ≡ true)
      → let r = (record_status p user_id slug version status context w).0 in
        let w' = (record_status p user_id slug version status context w).1 in
        ((is_ok r ≡ false) × (w' ≡ w))
        ⊎ ((row : UserConsent) × (r ≡ ok row)
            × ((document : LegalDocument) × ((find_by_version p slug version w).0
                  ≡ ok (some document)))
            × (rows w' ≡ rows w ++ row ∷ [])
            × Fits (to_params user_id slug version status context) row
            × ((find_latest p other_id other_slug w').0 ≡ (
                if is_consent_of other_id other_slug row
                then ok (some row)
                else (find_latest p other_id other_slug w).0)))
  unfolding record_status find_by_version record_consent
  record_status_decides user_id slug version status context w other_id other_slug stamped =
      let new = to_params user_id slug version status context in
      elim (Option-cases (head? (p.documents.select_where (is_version slug version) w.documents))) [
        | inl unknown ↦ inl (ground (arith, unknown), ground (arith, unknown))
        | inr (document, known) ↦ elim (Option-cases (p.consents.insert (new ∷ []) w.consents)) [
          | inl refused ↦ inl (ground (arith, known, refused), ground (arith, known, refused))
          | inr ((added, db), inserted) ↦
              let (row, one, fits) = laws.insert_one new w.consents added db inserted in
              let only : p.consents.insert (new ∷ []) w.consents ≡ some (row ∷ [], db) =
                inserted ∙ ap (λ (l : List UserConsent). some (l, db)) one in
              let w' = record w { consents = db } in
              let appended = laws.rows-insert (new ∷ []) w.consents (row ∷ []) db only in
              let done : record_status p user_id slug version status context w ≡ (ok row, w') =
                ground (arith, known, only) in
              inr (
                row,
                ap (λ (x : Result UserConsent × World p). x.0) done,
                (document, ground (arith, known)),
                ap (λ (x : Result UserConsent × World p). rows x.1) done ∙ appended,
                fits,
                ap (λ (x : Result UserConsent × World p). (find_latest p other_id other_slug x.1).0)
                      done
                    ∙ find_latest_append other_id other_slug w w' row appended
                        (stamped new row db only),
              )
        ]
      ]
