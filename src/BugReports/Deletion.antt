-- ===== src/BugReports/Deletion.antt =====
-- What is left of a bug report after `delete`.
use nestjs_boilerplate.Base.{
  ℕ, ◌≡◌, refl, ap, sym, subst, ◌∙◌, ◌||◌, Bool, true, false, not, Option, none, some, List, [],
  ◌∷◌, map, filter, head?, all, Text, if◌then◌else◌, Result, ok, ◌>>=◌, arith, Bool-cases, inl, inr,
}
use nestjs_boilerplate.Shared.Table.{TableLaws, map_where}
use nestjs_boilerplate.BugReports.{BugReport, NewBugReport, BugReportPorts, World}
use nestjs_boilerplate.BugReports.Repository
use nestjs_boilerplate.BugReports.Repository.{has_id, is_found, set_inactive}
use nestjs_boilerplate.BugReports.Service

abbrev is_shown : Bool → BugReport → Bool
is_shown include_inactive b = include_inactive || b.is_active

filter-is_found :
    (id : Text) (include_inactive : Bool) (bs : List BugReport)
    → filter
        (λ b.
          all (λ q. q b) (has_id id ∷ (if include_inactive then [] else (λ b. b.is_active) ∷ [])))
        bs
      ≡ filter (is_shown include_inactive) (filter (has_id id) bs)
filter-is_found id include_inactive [] = refl
filter-is_found id true (b ∷ bs) = ground (arith, filter-is_found id true bs)
filter-is_found id false (b ∷ bs) = ground (arith, filter-is_found id false bs)

filter-set_inactive :
    (id : Text) (now : ℕ) (bs : List BugReport)
    → filter (has_id id) (map_where (has_id id) (set_inactive now) bs)
      ≡ map (set_inactive now) (filter (has_id id) bs)
filter-set_inactive id now [] = refl
filter-set_inactive id now (b ∷ bs) = elim (Bool-cases (has_id id b)) [
  | inl hit ↦
      rw (hit, hit)
        (ap (λ (x : List BugReport). set_inactive now b ∷ x) (filter-set_inactive id now bs))
  | inr miss ↦ rw (miss, miss) (filter-set_inactive id now bs)
]

filter-deleted :
    (id : Text) (bs : List BugReport) → filter (has_id id) (filter (λ b. not (has_id id b)) bs) ≡ []
filter-deleted id [] = refl
filter-deleted id (b ∷ bs) = elim (Bool-cases (has_id id b)) [
  | inl hit ↦ rw hit (filter-deleted id bs)
  | inr miss ↦ rw (miss, miss) (filter-deleted id bs)
]

module _ {Fits : NewBugReport → BugReport → Type 0} (p : BugReportPorts)
    (laws : TableLaws Fits p.table) (id : Text) where
  abbrev rows_of : World p → List BugReport
  rows_of w = filter (has_id id) (p.table.rows w.db)

  -- What a lookup shows of the rows with the id.
  found_lem :
      (include_inactive : Bool) (w : World p) (bs : List BugReport)
      → rows_of w ≡ bs
      → head? (p.table.select_where (is_found p id include_inactive) w.db)
        ≡ head? (filter (is_shown include_inactive) bs)
  found_lem include_inactive w bs same =
      ap (λ (x : List BugReport). head? x)
        (laws.select-rows (is_found p id include_inactive) w.db
          ∙ filter-is_found id include_inactive (p.table.rows w.db)
          ∙ ap (λ (x : List BugReport). filter (is_shown include_inactive) x) same)

  abbrev kept : Bool → ℕ → BugReport → BugReport
  kept is_active now b = if is_active then set_inactive now b else b

  rows_of-deactivated :
      (is_active : Bool) (b : BugReport) (w : World p)
      → rows_of w ≡ b ∷ []
      → ((Service.deactivated p id is_active b w).0 ≡ ok b)
        × (rows_of (Service.deactivated p id is_active b w).1 ≡ kept is_active w.moment b ∷ [])
  unfolding Repository.soft_delete
  rows_of-deactivated true b w one = (
    refl,
    ap (λ (x : List BugReport). filter (has_id id) x)
          (laws.rows-update (has_id id) (set_inactive w.moment) w.db)
        ∙ filter-set_inactive id w.moment (p.table.rows w.db)
        ∙ ap (λ (x : List BugReport). map (set_inactive w.moment) x) one,
  )
  rows_of-deactivated false b w one = (refl, one)

  rows_of-deleted :
      (b : BugReport) (w : World p)
      → ((Service.removed p id true b w).0 ≡ ok b)
        × (rows_of (Service.removed p id true b w).1 ≡ [])
  unfolding Repository.delete
  rows_of-deleted b w = (
    refl,
    ap (λ (x : List BugReport). filter (has_id id) x) (laws.rows-delete (has_id id) w.db)
        ∙ filter-deleted id (p.table.rows w.db),
  )

  hidden :
      (is_active : Bool) (now : ℕ) (b : BugReport)
      → b.is_active ≡ is_active
      → head? (filter (is_shown false) (kept is_active now b ∷ [])) ≡ none
  hidden true now b e = refl
  hidden false now b e = rw e refl

  delete_lem :
      (force : Bool) (b : BugReport) (w : World p)
      → rows_of w ≡ b ∷ []
      → Service.delete p id force w ≡ Service.removed p id force b w
  unfolding Service.delete Repository.find_by_id
  delete_lem force b w one =
      ap (λ (o : Option BugReport). (Service.found_or_throw p o >>= Service.removed p id force) w)
        (found_lem true w (b ∷ []) one)

  find_lem :
      (include_inactive : Bool) (w : World p) (bs : List BugReport)
      → rows_of w ≡ bs
      → (Repository.find_by_id p id include_inactive w).0
        ≡ ok (head? (filter (is_shown include_inactive) bs))
  unfolding Repository.find_by_id
  find_lem include_inactive w bs same =
      ap (λ (o : Option BugReport). ok o) (found_lem include_inactive w bs same)

  abbrev After : Bool → ℕ → BugReport → Result BugReport × World p → Type 0
  After force now b x =
      (x.0 ≡ ok b)
      × ((Repository.find_by_id p id false x.1).0 ≡ ok none)
      × ((Repository.find_by_id p id true x.1).0
          ≡ ok (if force then none else some (kept b.is_active now b)))

  removed-After :
      (force : Bool) (b : BugReport) (w : World p)
      → rows_of w ≡ b ∷ []
      → After force w.moment b (Service.removed p id force b w)
  removed-After true b w one =
      let (answered, gone) = rows_of-deleted b w in
      let w' = (Service.removed p id true b w).1 in
      (answered, find_lem false w' [] gone, find_lem true w' [] gone)
  removed-After false b w one =
      let (answered, left) = rows_of-deactivated b.is_active b w one in
      let w' = (Service.removed p id false b w).1 in
      let row = kept b.is_active w.moment b in
      (
        answered,
        find_lem false w' (row ∷ []) left
            ∙ ap (λ (o : Option BugReport). ok o) (hidden b.is_active w.moment b refl),
        find_lem true w' (row ∷ []) left,
      )

  -- `delete` of the one report with an id answers with the report as it was. After it the id is not
  -- found among the active reports; among all, it is found inactive, or not at all where the
  -- deletion is forced.
  pub delete-find_by_id :
      (force : Bool) (b : BugReport) (w : World p)
      → filter (has_id id) (p.table.rows w.db) ≡ b ∷ []
      → ((Service.delete p id force w).0 ≡ ok b)
        × ((Repository.find_by_id p id false (Service.delete p id force w).1).0 ≡ ok none)
        × ((Repository.find_by_id p id true (Service.delete p id force w).1).0
            ≡ ok
                (if force then none else some (if b.is_active then set_inactive w.moment b else b)))
  delete-find_by_id force b w one =
      subst (After force w.moment b) (sym (delete_lem force b w one)) (removed-After force b w one)
