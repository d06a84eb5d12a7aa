-- ===== src/BugReports/Tests.antt =====
-- Bug reports on concrete inputs: a table in memory, and ILIKE as a function.
use nestjs_boilerplate.Base.{
  ℕ, ◌≡◌, refl, ◌==◌, ◌&&◌, ◌||◌, Bool, true, false, none, some, [], ◌∷◌, Text, text_eq, codes,
  if◌then◌else◌, ok, pure, throw, failure, arith,
}
use nestjs_boilerplate.Auth.Normalize.{lower}
use nestjs_boilerplate.Shared.Table.Listed
use nestjs_boilerplate.Shared.Users.{truthy, column_eq}
use nestjs_boilerplate.Shared.Pagination.{build_pagination_meta}
use nestjs_boilerplate.BugReports.{
  BugReport, NewBugReport, BugReportListFilters, BugReportPorts, World,
}
use nestjs_boilerplate.BugReports.Repository
use nestjs_boilerplate.BugReports.Repository.{is_special, pattern_of, escape_like, set_inactive}
use nestjs_boilerplate.BugReports.Service
use nestjs_boilerplate.BugReports.Search.{LikeLaws, matches, find_all-matches}
use nestjs_boilerplate.BugReports.Deletion.{delete-find_by_id}

abbrev same : ℕ → ℕ → Bool
same c d = lower c == lower d

-- `f` of some end of the text.
abbrev somewhere : (Text → Bool) → Text → Bool
somewhere f [] = f []
somewhere f (c ∷ s) = f (c ∷ s) || somewhere f s

abbrev first : ℕ → (Text → Bool) → Text → Bool
first d f [] = false
first d f (c ∷ s) = same c d && f s

abbrev like : Text → Text → Bool
like [] [] = true
like [] (c ∷ s) = false
like (d ∷ []) s =
    let rest = like [] in
    if d == b'%' then somewhere rest s else if d == 92 then false else first d rest s
like (d ∷ e ∷ q) s =
    let rest = like (e ∷ q) in
    let quoted = like q in
    if d == b'%' then somewhere rest s else if d == 92 then first e quoted s else first d rest s

like-LikeLaws : LikeLaws (λ s q. like q s) same
like-LikeLaws = record {
  at_end = refl;
  too_long = λ c s. refl;
  any_at_end = at_end;
  any_text = any_text;
  escaped_at_end = λ d q. refl;
  escaped = λ c s d q. refl;
  letter_at_end = letter_at_end;
  letter = letter;
}
  where
    at_end : (q : Text) → like (b'%' ∷ q) [] ≡ like q []
    at_end [] = refl
    at_end (e ∷ q) = refl

    any_text :
        (c : ℕ) (s q : Text) → like (b'%' ∷ q) (c ∷ s) ≡ (like q (c ∷ s) || like (b'%' ∷ q) s)
    any_text c s [] = refl
    any_text c s (e ∷ q) = refl

    letter_at_end : (d : ℕ) (q : Text) → is_special d ≡ false → like (d ∷ q) [] ≡ false
    letter_at_end d [] plain = ground (arith, plain)
    letter_at_end d (e ∷ q) plain = ground (arith, plain)

    letter :
        (c : ℕ) (s : Text) (d : ℕ) (q : Text)
        → is_special d ≡ false
        → like (d ∷ q) (c ∷ s) ≡ (same c d && like q s)
    letter c s d [] plain = ground (arith, plain)
    letter c s d (e ∷ q) plain = ground (arith, plain)

abbrev report : Text → Text → Bool → ℕ → BugReport
report id title is_active at = record {
  id = id;
  title = title;
  description = codes "";
  severity = codes "medium";
  status = codes "open";
  route = none;
  payload = none;
  environment = none;
  entity_type = none;
  entity_id = none;
  reporter_id = some 7;
  assignee_id = none;
  resolution_note = none;
  is_active = is_active;
  created_at = at;
  updated_at = at;
}

abbrev build : ℕ → NewBugReport → BugReport
build n new = record {
  id = n ∷ [];
  title = new.title;
  description = new.description;
  severity = new.severity;
  status = codes "open";
  route = new.route;
  payload = new.payload;
  environment = new.environment;
  entity_type = new.entity_type;
  entity_id = new.entity_id;
  reporter_id = new.reporter_id;
  assignee_id = new.assignee_id;
  resolution_note = none;
  is_active = true;
  created_at = n;
  updated_at = n;
}

abbrev KeptColumns : NewBugReport → BugReport → Type 0
KeptColumns new b = b.title ≡ new.title

abbrev ports : BugReportPorts
ports = record {
  table = Listed.listed build (λ _ _. false);
  ilike = λ s q. like q s;
  assets = record {
    State = Unit;
    presign_upload = λ _. throw (failure "no storage");
    register_asset = λ _. throw (failure "no storage");
    list_by_entity = λ _ _. pure [];
  };
  attachments_enabled = none;
}

abbrev discount : BugReport
discount = report (codes "a1") (codes "A 50% off price") true 3

abbrev total : BugReport
total = report (codes "b2") (codes "Total is 500") true 4

abbrev old : BugReport
old = report (codes "c3") (codes "50% OFF") false 5

abbrev world : World ports
world = record {
  db = record { serial = 1; list = discount ∷ total ∷ old ∷ [] };
  moment = 9;
  assets = tt;
}

abbrev filters : BugReportListFilters
filters = record {
  page = 1;
  limit = 10;
  search = some (codes "50% off");
  status = none;
  severity = none;
  entity_type = none;
  entity_id = none;
  reporter_id = some 7;
  assignee_id = none;
  include_inactive = false;
}

-- The percent sign of a search is no wildcard.
find_all-matches_example : Service.find_all ports filters world ≡ (
  ok (record {
    data_ = discount ∷ [];
    meta = record {
      page = 1;
      limit = 10;
      total_count = 1;
      total_pages = 1;
      has_next_page = false;
      has_previous_page = false;
    };
  }),
  world,
)
unfolding matches truthy column_eq text_eq lower build_pagination_meta
find_all-matches_example =
    find_all-matches {Fits = KeptColumns} ports
      (Listed.listed-TableLaws build (λ _ _. false) KeptColumns (λ n new. refl)) same like-LikeLaws
      filters world

delete-find_by_id_example :
    ((Service.delete ports (codes "a1") false world).0 ≡ ok discount)
    × ((Repository.find_by_id ports
          (codes "a1")
          false
          (Service.delete ports (codes "a1") false world).1).0
        ≡ ok none)
    × ((Repository.find_by_id ports
          (codes "a1")
          true
          (Service.delete ports (codes "a1") false world).1).0
        ≡ ok (some (set_inactive 9 discount)))
unfolding text_eq
delete-find_by_id_example =
    delete-find_by_id {Fits = KeptColumns} ports
      (Listed.listed-TableLaws build (λ _ _. false) KeptColumns (λ n new. refl)) (codes "a1") false
      discount world refl
