-- ===== src/Consent/Currents.antt =====
-- At most one version of a document is current.
use nestjs_boilerplate.Base.{
  ◌≡◌, ap, ◌∙◌, ◌&&◌, ◌||◌, Bool, true, false, not, filter, Text, text_eq, text_eq→eq, Bool-cases,
  inl, inr, arith,
}
use nestjs_boilerplate.Shared.Table.{TableLaws}
use nestjs_boilerplate.Shared.Table.Rows.{filter-map_where_out}
use nestjs_boilerplate.Consent.{
  ConsentPorts, World, LegalDocument, UpsertDocumentParams, is_current_of, is_other_current, demote,
  clear_other_currents,
}

-- A current version of `other`, and of `slug` only the version that is kept.
abbrev pub stays_current : Text → Text → Text → LegalDocument → Bool
stays_current slug keep_version other d =
    is_current_of other d && (not (text_eq slug other) || text_eq d.version keep_version)

module _ (slug keep other : Text) (d : LegalDocument) where
  demoted_out : is_current_of other (demote d) ≡ false
  demoted_out = ground arith

  demoted_before : is_other_current slug keep d ≡ true → stays_current slug keep other d ≡ false
  demoted_before demoted =
      let own : text_eq d.slug slug ≡ true = ground (arith, demoted) in
      let same : text_eq d.slug other ≡ text_eq slug other =
        ap (λ (x : Text). text_eq x other) (text_eq→eq d.slug slug own) in
      ground (arith, demoted, same)

  kept_same :
      is_other_current slug keep d ≡ false → is_current_of other d ≡ stays_current slug keep other d
  kept_same kept = elim (Bool-cases (text_eq slug other)) [
    | inr apart ↦ ground (arith, apart)
    | inl hit ↦
        let same : text_eq d.slug slug ≡ text_eq d.slug other =
          ap (λ (x : Text). text_eq d.slug x) (text_eq→eq slug other hit) in
        ground (arith, hit, same, kept)
  ]

-- `clearOtherCurrents` leaves of the current versions of the document just the one to keep, and the
-- current versions of every other document as they were.
pub clear_other_currents_lem :
    {Fits : UpsertDocumentParams → LegalDocument → Type 0} (p : ConsentPorts)
    (laws : TableLaws Fits p.documents) (slug keep other : Text) (w : World p)
    → filter
        (is_current_of other)
        (p.documents.rows (clear_other_currents p slug keep w).1.documents)
      ≡ filter (stays_current slug keep other) (p.documents.rows w.documents)
unfolding clear_other_currents
clear_other_currents_lem p laws slug keep other w =
    ap (filter (is_current_of other))
      (laws.rows-update (is_other_current slug keep) demote w.documents)
    ∙ filter-map_where_out (is_other_current slug keep) (is_current_of other)
        (stays_current slug keep other) demote (p.documents.rows w.documents)
        (λ d _. demoted_out slug keep other d) (λ d hit. demoted_before slug keep other d hit)
        (λ d miss. kept_same slug keep other d miss)
