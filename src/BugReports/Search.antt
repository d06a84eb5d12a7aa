-- ===== src/BugReports/Search.antt =====
-- The listing of bug reports: what the escaped pattern of a search finds, and what `findAll` answers.
use nestjs_boilerplate.Base.{
  ℕ, ◌≡◌, refl, ap, ◌∙◌, ◌&&◌, ◌||◌, Bool, true, false, Option, none, some, List, [], ◌∷◌, ◌++◌,
  all, filter, length, Text, text_eq, if◌then◌else◌, ok, arith, Bool-cases, inl, inr,
}
use nestjs_boilerplate.Shared.Users.{truthy, column_eq}
use nestjs_boilerplate.Shared.Table.{TableLaws}
use nestjs_boilerplate.Shared.Pagination.{page_of, build_pagination_meta, paginate}
use nestjs_boilerplate.BugReports.{
  BugReport, NewBugReport, BugReportListFilters, BugReportPorts, World, status_value,
  severity_value,
}
use nestjs_boilerplate.BugReports.Repository
use nestjs_boilerplate.BugReports.Repository.{
  Condition, pushed, number_eq, is_special, escape_like, pattern_of, is_live, newest_first,
  contains, conditions, is_listed,
}
use nestjs_boilerplate.BugReports.Service

-- What the database's manual says of ILIKE: `%` stands for any text, a backslash takes the letter
-- behind it as it is, and a letter matches one that differs in its case at most (`same`).
pub record LikeLaws (ilike : Text → Text → Bool) (same : ℕ → ℕ → Bool) : Type 0 where
  pub at_end : ilike [] [] ≡ true
  pub too_long : (c : ℕ) (s : Text) → ilike (c ∷ s) [] ≡ false
  pub any_at_end : (q : Text) → ilike [] (b'%' ∷ q) ≡ ilike [] q
  pub any_text :
      (c : ℕ) (s q : Text) → ilike (c ∷ s) (b'%' ∷ q) ≡ (ilike (c ∷ s) q || ilike s (b'%' ∷ q))
  pub escaped_at_end : (d : ℕ) (q : Text) → ilike [] (92 ∷ d ∷ q) ≡ false
  pub escaped :
      (c : ℕ) (s : Text) (d : ℕ) (q : Text) → ilike (c ∷ s) (92 ∷ d ∷ q) ≡ (same c d && ilike s q)
  pub letter_at_end : (d : ℕ) (q : Text) → is_special d ≡ false → ilike [] (d ∷ q) ≡ false
  pub letter :
      (c : ℕ) (s : Text) (d : ℕ) (q : Text)
      → is_special d ≡ false
      → ilike (c ∷ s) (d ∷ q) ≡ (same c d && ilike s q)

-- The search as its reader means it: the text occurs, letter by letter up to case.
module _ (same : ℕ → ℕ → Bool) where
  abbrev pub begins : Text → Text → Bool
  begins [] s = true
  begins (d ∷ t) [] = false
  begins (d ∷ t) (c ∷ s) = same c d && begins t s

  abbrev pub occurs : Text → Text → Bool
  occurs t [] = begins t []
  occurs t (c ∷ s) = begins t (c ∷ s) || occurs t s

-- A filter that is not given holds for every row.
abbrev pub wanted : {A : Type 0} → Option A → (A → Bool) → Bool
wanted none test = true
wanted (some v) test = test v

module _ (same : ℕ → ℕ → Bool) where
  unfoldable pub matches : BugReportListFilters → BugReport → Bool
  matches filters b =
      (filters.include_inactive || b.is_active)
      && (wanted (truthy filters.search) (λ t. occurs same t b.title || occurs same t b.description)
          && (wanted filters.status (λ status. text_eq b.status (status_value status))
              && (wanted filters.severity (λ severity. text_eq b.severity (severity_value severity))
                  && (wanted (truthy filters.entity_type) (column_eq b.entity_type)
                      && (wanted (truthy filters.entity_id) (column_eq b.entity_id)
                          && (wanted filters.reporter_id (number_eq b.reporter_id)
                              && wanted filters.assignee_id (number_eq b.assignee_id)))))))

module _ (ilike : Text → Text → Bool) (same : ℕ → ℕ → Bool) (laws : LikeLaws ilike same) where
  any_rest : (s : Text) → ilike s (b'%' ∷ []) ≡ true
  any_rest [] = laws.any_at_end [] ∙ laws.at_end
  any_rest (c ∷ s) =
      let step = laws.any_text c s [] in let rest = any_rest s in ground (arith, step, rest)

  escaped-begins : (t s : Text) → ilike s (escape_like t ++ b'%' ∷ []) ≡ begins same t s
  unfolding escape_like
  escaped-begins [] s = any_rest s
  escaped-begins (d ∷ t) [] = elim (Bool-cases (is_special d)) [
    | inl special ↦ rw special (laws.escaped_at_end d (escape_like t ++ b'%' ∷ []))
    | inr plain ↦ rw plain (laws.letter_at_end d (escape_like t ++ b'%' ∷ []) plain)
  ]
  escaped-begins (d ∷ t) (c ∷ s) =
      let rest = ap (λ (x : Bool). same c d && x) (escaped-begins t s) in
      elim (Bool-cases (is_special d)) [
        | inl special ↦ rw special (laws.escaped c s d (escape_like t ++ b'%' ∷ []) ∙ rest)
        | inr plain ↦ rw plain (laws.letter c s d (escape_like t ++ b'%' ∷ []) plain ∙ rest)
      ]

  pattern-occurs : (t s : Text) → ilike s (pattern_of t) ≡ occurs same t s
  unfolding pattern_of
  pattern-occurs t [] = laws.any_at_end (escape_like t ++ b'%' ∷ []) ∙ escaped-begins t []
  pattern-occurs t (c ∷ s) =
      let step = laws.any_text c s (escape_like t ++ b'%' ∷ []) in
      let here = escaped-begins t (c ∷ s) in
      let rest = pattern-occurs t s in ground (arith, step, here, rest)

-- One condition of a WHERE clause after another.
all-pushed :
    {A : Type 0} (o : Option A) (f : A → Condition) (qs : List Condition) (b : BugReport)
    → all (λ q. q b) (pushed o f ++ qs) ≡ (wanted o (λ v. f v b) && all (λ q. q b) qs)
all-pushed none f qs b = refl
all-pushed (some v) f qs b = refl

all-live :
    (include_inactive : Bool) (qs : List Condition) (b : BugReport)
    → all (λ q. q b) ((if include_inactive then [] else is_live ∷ []) ++ qs)
      ≡ ((include_inactive || b.is_active) && all (λ q. q b) qs)
all-live true qs b = refl
all-live false qs b = refl

filter-agree :
    {A : Type 0} (f g : A → Bool) (xs : List A) → ((x : A) → f x ≡ g x) → filter f xs ≡ filter g xs
filter-agree f g [] same = refl
filter-agree f g (x ∷ xs) same = rw (same x, filter-agree f g xs same) refl

all-last :
    {A : Type 0} (o : Option A) (f : A → Condition) (b : BugReport)
    → all (λ q. q b) (pushed o f) ≡ wanted o (λ v. f v b)
all-last none f b = refl
all-last (some v) f b = ground arith

and_then : {a y z : Bool} (x : Bool) → a ≡ (x && y) → y ≡ z → a ≡ (x && z)
and_then x first rest = first ∙ ap (λ (y : Bool). x && y) rest

module _ (p : BugReportPorts) (same : ℕ → ℕ → Bool) (like : LikeLaws p.ilike same) where
  wanted-contains :
      (o : Option Text) (b : BugReport)
      → wanted o (λ t. contains p t b)
        ≡ wanted o (λ t. occurs same t b.title || occurs same t b.description)
  unfolding contains
  wanted-contains none b = refl
  wanted-contains (some t) b =
      rw
        (
          pattern-occurs p.ilike same like t b.title,
          pattern-occurs p.ilike same like t b.description,
        )
        refl

  is_listed-matches :
      (filters : BugReportListFilters) (b : BugReport)
      → is_listed p filters b ≡ matches same filters b
  unfolding is_listed conditions matches
  is_listed-matches filters b =
      let q7 = pushed filters.assignee_id (λ id b. number_eq b.assignee_id id) in
      let q6 = pushed filters.reporter_id (λ id b. number_eq b.reporter_id id) ++ q7 in
      let q5 = pushed (truthy filters.entity_id) (λ id b. column_eq b.entity_id id) ++ q6 in
      let q4 = pushed (truthy filters.entity_type) (λ type b. column_eq b.entity_type type) ++ q5 in
      let q3 =
        pushed filters.severity (λ severity b. text_eq b.severity (severity_value severity))
        ++ q4 in
      let q2 = pushed filters.status (λ status b. text_eq b.status (status_value status)) ++ q3 in
      let q1 = pushed (truthy filters.search) (contains p) ++ q2 in
      and_then (filters.include_inactive || b.is_active) (all-live filters.include_inactive q1 b) (
        and_then
          (wanted (truthy filters.search)
            (λ t. occurs same t b.title || occurs same t b.description))
          (all-pushed (truthy filters.search) (contains p) q2 b
            ∙ ap (λ (x : Bool). x && all (λ q. q b) q2) (wanted-contains (truthy filters.search) b))
          (and_then (wanted filters.status (λ status. text_eq b.status (status_value status)))
            (all-pushed filters.status (λ status b. text_eq b.status (status_value status)) q3 b)
            (and_then
              (wanted filters.severity (λ severity. text_eq b.severity (severity_value severity)))
              (all-pushed filters.severity
                (λ severity b. text_eq b.severity (severity_value severity)) q4 b)
              (and_then (wanted (truthy filters.entity_type) (column_eq b.entity_type))
                (all-pushed (truthy filters.entity_type) (λ type b. column_eq b.entity_type type) q5
                  b)
                (and_then (wanted (truthy filters.entity_id) (column_eq b.entity_id))
                  (all-pushed (truthy filters.entity_id) (λ id b. column_eq b.entity_id id) q6 b)
                  (and_then (wanted filters.reporter_id (number_eq b.reporter_id))
                    (all-pushed filters.reporter_id (λ id b. number_eq b.reporter_id id) q7 b)
                    (all-last filters.assignee_id (λ id b. number_eq b.assignee_id id) b)))))))

module _ {Fits : NewBugReport → BugReport → Type 0} (p : BugReportPorts)
    (laws : TableLaws Fits p.table) (same : ℕ → ℕ → Bool) (like : LikeLaws p.ilike same) where
  -- `findAll` answers with one page of the rows that match, of which the envelope counts all, and
  -- changes nothing. A row matches if it is active (or inactive ones are asked for), equals every
  -- filter that is given, and the searched text, of any letters, occurs in its title or its
  -- description up to case.
  pub find_all-matches :
      (filters : BugReportListFilters) (w : World p)
      → let rows = filter (matches same filters) (p.table.rows w.db) in
        Service.find_all p filters w ≡ (
          ok (record {
            data_ = page_of filters.page filters.limit (newest_first rows);
            meta = build_pagination_meta (length rows) filters.page filters.limit;
          }),
          w,
        )
  unfolding Service.find_all Repository.find_all paginate
  find_all-matches filters w =
      rw
        (
          laws.select-rows (is_listed p filters) w.db,
          filter-agree (is_listed p filters) (matches same filters) (p.table.rows w.db)
              (is_listed-matches p same like filters),
        )
        refl
