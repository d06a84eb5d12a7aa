-- ===== src/Shared/Pagination.antt =====
-- src/modules/shared/common/utils/pagination.util.ts and dto/pagination-meta.dto.ts: the envelope of
-- a page.
pub mod Pages
use nestjs_boilerplate.Base.{ℕ, ◌+◌, ◌-◌, ◌*◌, ◌/◌, ltb, Bool, List, if◌then◌else◌, take, drop}

pub record PaginationMeta : Type 0 where
  pub page : ℕ
  pub limit : ℕ
  pub total_count : ℕ
  pub total_pages : ℕ
  pub has_next_page : Bool
  pub has_previous_page : Bool

pub record Paginated (A : Type 0) : Type 0 where
  pub data_ : List A
  pub meta : PaginationMeta

-- `Math.ceil(n / d)` for a positive `d`
abbrev ceil_div : ℕ → ℕ → ℕ
ceil_div n d = (n + (d - 1)) / d

abbrev pub total_pages_of : ℕ → ℕ → ℕ
total_pages_of total_count limit = if ltb 0 limit then ceil_div total_count limit else 0

unfoldable pub build_pagination_meta : ℕ → ℕ → ℕ → PaginationMeta
build_pagination_meta total_count page limit = record {
  page = page;
  limit = limit;
  total_count = total_count;
  total_pages = total_pages_of total_count limit;
  has_next_page = ltb page (total_pages_of total_count limit);
  has_previous_page = ltb 1 page;
}

unfoldable pub paginate : {A : Type 0} → List A → ℕ → ℕ → ℕ → Paginated A
unfolding build_pagination_meta
paginate rows total_count page limit = record {
  data_ = rows;
  meta = build_pagination_meta total_count page limit;
}

-- The rows of a page, counted from 1: LIMIT limit OFFSET (page - 1) * limit.
abbrev pub page_of : {A : Type 0} → ℕ → ℕ → List A → List A
page_of page limit rows = take limit (drop ((page - 1) * limit) rows)
