-- ===== src/BugReports/Repository.antt =====
-- src/modules/admin/bug-reports/bug-reports.repository.ts.
use nestjs_boilerplate.Base.{
  ℕ, ◌+◌, ◌==◌, ltb, ◌&&◌, ◌||◌, Bool, true, false, Option, none, some, List, [], ◌∷◌, ◌++◌, head?,
  all, length, Text, text_eq, if◌then◌else◌, or_default, Result, failure, throw, gets, or_throw,
}
use nestjs_boilerplate.Shared.Users.{column_eq, truthy}
use nestjs_boilerplate.Shared.Pagination.{page_of}
use nestjs_boilerplate.BugReports.{
  BugReport, NewBugReport, BugReportPatch, BugReportListFilters, BugReportPorts, World, Method,
  status_value, severity_value,
}

-- A condition of a WHERE clause.
abbrev pub Condition : Type 0
Condition = BugReport → Bool

-- `if (value) conditions.push(…)`
abbrev pub pushed : {A : Type 0} → Option A → (A → Condition) → List Condition
pushed none condition = []
pushed (some v) condition = condition v ∷ []

abbrev pub pushed_if : Bool → Condition → List Condition
pushed_if c condition = if c then condition ∷ [] else []

-- `eq(column, value)` at a nullable column of numbers.
abbrev pub number_eq : Option ℕ → ℕ → Bool
number_eq none v = false
number_eq (some w) v = w == v

abbrev pub has_id : Text → Condition
has_id id b = text_eq b.id id

abbrev pub is_live : Condition
is_live b = b.is_active

-- `search.replace(/[\\%_]/g, '\\$&')`
abbrev pub is_special : ℕ → Bool
is_special c = c == 92 || c == b'%' || c == b'_'

unfoldable pub escape_like : Text → Text
escape_like [] = []
escape_like (c ∷ s) = if is_special c then 92 ∷ c ∷ escape_like s else c ∷ escape_like s

unfoldable pub pattern_of : Text → Text
pattern_of search = b'%' ∷ escape_like search ++ b'%' ∷ []

-- `orderBy(desc(createdAt), desc(id))`: whether the first row comes before the second.
abbrev pub text_ltb : Text → Text → Bool
text_ltb [] [] = false
text_ltb [] (b ∷ t) = true
text_ltb (a ∷ s) [] = false
text_ltb (a ∷ s) (b ∷ t) = ltb a b || (a == b && text_ltb s t)

abbrev pub is_newer : BugReport → BugReport → Bool
is_newer a b = ltb b.created_at a.created_at || (a.created_at == b.created_at && text_ltb b.id a.id)

abbrev pub insert_newest : BugReport → List BugReport → List BugReport
insert_newest b [] = b ∷ []
insert_newest b (a ∷ bs) = if is_newer a b then a ∷ insert_newest b bs else b ∷ a ∷ bs

abbrev pub newest_first : List BugReport → List BugReport
newest_first [] = []
newest_first (b ∷ bs) = insert_newest b (newest_first bs)

-- The SET clauses.
abbrev pub set_patch : ℕ → BugReportPatch → BugReport → BugReport
set_patch now patch b = record b {
  title = or_default patch.title b.title;
  description = or_default patch.description b.description;
  severity = or_default patch.severity b.severity;
  status = or_default patch.status b.status;
  assignee_id = or_default patch.assignee_id b.assignee_id;
  resolution_note = changed patch.resolution_note b.resolution_note;
  updated_at = now;
}
  where
    changed : Option Text → Option Text → Option Text
    changed none old = old
    changed (some v) old = some v

abbrev pub set_inactive : ℕ → BugReport → BugReport
set_inactive now b = record b { is_active = false; updated_at = now }

-- `Object.keys(patch).length === 0`
abbrev pub is_empty_patch : BugReportPatch → Bool
is_empty_patch patch =
    is_unset patch.title
    && is_unset patch.description
    && is_unset patch.severity
    && is_unset patch.status
    && is_unset patch.assignee_id
    && is_unset patch.resolution_note
  where
    is_unset : {A : Type 0} → Option A → Bool
    is_unset none = true
    is_unset (some v) = false

abbrev pub is_some_row : List BugReport → Bool
is_some_row [] = false
is_some_row (b ∷ bs) = true

module _ (p : BugReportPorts) where
  abbrev pub created : Option (List BugReport × p.table.Db) → World p → Result BugReport × World p
  created none w = throw (failure "foreign key violation") w
  created (some (rows, db)) w =
      or_throw (head? rows) (failure "Failed to insert bug_reports row") (record w { db = db })

  unfoldable pub create : NewBugReport → Method p BugReport
  create data_ w = created (p.table.insert (data_ ∷ []) w.db) w

  abbrev pub is_found : Text → Bool → Condition
  is_found id include_inactive b =
      all (λ q. q b) (has_id id ∷ (if include_inactive then [] else is_live ∷ []))

  unfoldable pub find_by_id : Text → Bool → Method p (Option BugReport)
  find_by_id id include_inactive =
      gets (λ w. head? (p.table.select_where (is_found id include_inactive) w.db))

  unfoldable pub contains : Text → Condition
  contains search b =
      p.ilike b.title (pattern_of search) || p.ilike b.description (pattern_of search)

  unfoldable pub conditions : BugReportListFilters → List Condition
  conditions filters =
      (if filters.include_inactive then [] else is_live ∷ [])
      ++ (pushed (truthy filters.search) contains
          ++ (pushed filters.status (λ status b. text_eq b.status (status_value status))
              ++ (pushed filters.severity
                    (λ severity b. text_eq b.severity (severity_value severity))
                  ++ (pushed (truthy filters.entity_type) (λ type b. column_eq b.entity_type type)
                      ++ (pushed (truthy filters.entity_id) (λ id b. column_eq b.entity_id id)
                          ++ (pushed filters.reporter_id (λ id b. number_eq b.reporter_id id)
                              ++ (pushed filters.assignee_id
                                  (λ id b. number_eq b.assignee_id id))))))))

  -- `and(...conditions)`, which holds for every row if there is none.
  unfoldable pub is_listed : BugReportListFilters → Condition
  is_listed filters b = all (λ q. q b) (conditions filters)

  -- The rows of the page, and the count of all rows.
  unfoldable pub find_all : BugReportListFilters → Method p (List BugReport × ℕ)
  find_all filters = gets (λ w.
      let found = p.table.select_where (is_listed filters) w.db in
      (page_of filters.page filters.limit (newest_first found), length found))

  -- An UPDATE stamps the rows with the moment.
  abbrev pub updated : (BugReport → BugReport) → Text → World p → List BugReport × World p
  updated f id w =
      let (rows, db) = p.table.update_where (has_id id) f w.db in
      (rows, record w { db = db; moment = w.moment + 1 })

  unfoldable pub update : Text → BugReportPatch → Method p (Option BugReport)
  unfolding find_by_id
  update id patch w = elim (is_empty_patch patch) [
    | true ↦ find_by_id id false w
    | false ↦ let (rows, w') = updated (set_patch w.moment patch) id w in gets (λ _. head? rows) w'
  ]

  unfoldable pub delete : Text → Method p Bool
  delete id w =
      let (rows, db) = p.table.delete_where (has_id id) w.db in
      let w' : World p = record w { db = db } in gets (λ _. is_some_row rows) w'

  unfoldable pub soft_delete : Text → Method p Bool
  soft_delete id w =
      let (rows, w') = updated (set_inactive w.moment) id w in gets (λ _. is_some_row rows) w'
