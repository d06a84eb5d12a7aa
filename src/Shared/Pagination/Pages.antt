-- ===== src/Shared/Pagination/Pages.antt =====
-- The pages of a list hold each row once, and the envelope says which pages there are.
use nestjs_boilerplate.Base.{
  ℕ, zero, suc, ◌+◌, ◌-◌, ◌*◌, ◌/◌, ◌≤◌, ◌<◌, ◌≡◌, refl, ltb, List, [], ◌∷◌, ◌++◌, take, drop,
  length, arith, ◌∙◌, ap, sym, take-drop, drop-drop, length-drop,
}
use nestjs_boilerplate.Shared.Pagination.{page_of, build_pagination_meta, total_pages_of}

-- The pages from `page` on, one after another.
abbrev pub pages_from : {A : Type 0} → ℕ → ℕ → ℕ → List A → List A
pages_from limit zero page rows = []
pages_from limit (suc n) page rows = page_of page limit rows ++ pages_from limit n (suc page) rows

module _ (limit : ℕ) (positive : 0 < limit) where
  -- The pages cover the rows, and the last one is not empty.
  enough_pages : (n : ℕ) → n ≤ (n + (limit - 1)) / limit * limit
  enough_pages n = omega (arith, positive)

  page_below : (k n : ℕ) → k * limit < n → k < (n + (limit - 1)) / limit
  page_below k n h = grind (arith, positive, h)

  page_above : (k n : ℕ) → n ≤ k * limit → (n + (limit - 1)) / limit ≤ k
  page_above k n h = grind (arith, positive, h)

  total_pages_lem : (n : ℕ) → total_pages_of n limit ≡ (n + (limit - 1)) / limit
  total_pages_lem n = ground (arith, positive)

module _ {A : Type 0} (limit : ℕ) (positive : 0 < limit) where
  dropped_all : (n : ℕ) (rows : List A) → length rows ≤ n → drop n rows ≡ []
  dropped_all zero [] h = refl
  dropped_all zero (x ∷ rows) h = ground (arith, h)
  dropped_all (suc n) [] h = refl
  dropped_all (suc n) (x ∷ rows) h = dropped_all n rows (omega (arith, h))

  pages_lem :
      (n k : ℕ) (rows : List A)
      → length rows ≤ (k + n) * limit
      → pages_from limit n (suc k) rows ≡ drop (k * limit) rows
  pages_lem zero k rows enough =
      let same : (k + 0) * limit ≡ k * limit = omega arith in
      sym (dropped_all (k * limit) rows (omega (arith, enough, same)))
  pages_lem (suc n) k rows enough =
      let width : suc k - 1 ≡ k = omega arith in
      let next : k * limit + limit ≡ suc k * limit = omega arith in
      let more : (k + suc n) * limit ≡ (suc k + n) * limit = omega arith in
      let rest = pages_lem n (suc k) rows (omega (arith, enough, more)) in
      rw (width, rest, sym next)
        (ap (λ (ys : List A). take limit (drop (k * limit) rows) ++ ys)
            (sym (drop-drop (k * limit) limit rows))
          ∙ take-drop limit (drop (k * limit) rows))

  some_taken : (n : ℕ) (ys : List A) → 0 < n → ltb 0 (length (take n ys)) ≡ ltb 0 (length ys)
  some_taken zero ys h = ground (arith, h)
  some_taken (suc n) [] h = refl
  some_taken (suc n) (y ∷ ys) h = ground arith

  -- With a positive limit the pages 1 to `totalPages` of the envelope, one after another, hold all
  -- rows in order, and the envelope of a page says that there is a next one exactly if the next
  -- page has a row.
  pub build_pagination_meta_lem :
      (page : ℕ) (rows : List A)
      → let meta = build_pagination_meta (length rows) page limit in
        (pages_from limit meta.total_pages 1 rows ≡ rows)
        × (meta.has_next_page ≡ ltb 0 (length (page_of (page + 1) limit rows)))
  unfolding build_pagination_meta
  build_pagination_meta_lem page rows =
      let n = length rows in
      let total = (n + (limit - 1)) / limit in
      let start : 0 * limit ≡ 0 = omega arith in
      let offset : page + 1 - 1 ≡ page = omega arith in
      (
        rw (total_pages_lem limit positive n) (
            pages_lem total 0 rows (omega (arith, enough_pages limit positive n))
            ∙ ap (λ (k : ℕ). drop k rows) start),
        rw
            (
              total_pages_lem limit positive n,
              offset,
              some_taken limit (drop (page * limit) rows) positive,
              length-drop (page * limit) rows,
            )
            (ground (arith, page_below limit positive page n, page_above limit positive page n)),
      )
