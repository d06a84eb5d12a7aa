-- ===== src/Shared/Table/Rows.antt =====
-- How a selection sees an update of the rows.
use nestjs_boilerplate.Base.{
  ◌≡◌, refl, Bool, true, false, some, List, [], ◌∷◌, filter, head?, if◌then◌else◌, arith,
  Bool-cases, inl, inr,
}
use nestjs_boilerplate.Shared.Table.{map_where}

module _ {Row : Type 0} where
  pub head-filter :
      (p : Row → Bool) (xs : List Row) {x : Row} → head? (filter p xs) ≡ some x → p x ≡ true
  head-filter p [] h = ground arith
  head-filter p (y ∷ xs) {x} h = elim (Bool-cases (p y)) [
    | inl yes_y ↦ ground arith
    | inr no_y ↦ head-filter p xs (rw no_y at h)
  ]

  -- The row that a selection finds, after an update that the selection does not see.
  pub head-filter-map_where :
      (q p : Row → Bool) (f : Row → Row) (xs : List Row) {x : Row}
      → ((y : Row) → q (f y) ≡ q y)
      → head? (filter q xs) ≡ some x
      → head? (filter q (map_where p f xs)) ≡ some (if p x then f x else x)
  head-filter-map_where q p f [] keep h = ground arith
  head-filter-map_where q p f (y ∷ xs) {x} keep h = elim (Bool-cases (q y)) [
    | inl hit ↦ elim (Bool-cases (p y)) [
      | inl changed ↦ rw (changed, keep y, hit) (ground arith)
      | inr same ↦ rw (same, hit) (ground arith)
    ]
    | inr miss ↦
        let rest = head-filter-map_where q p f xs keep (rw miss at h) in
        elim (Bool-cases (p y)) [
          | inl changed ↦ rw (changed, keep y, miss) rest
          | inr same ↦ rw (same, miss) rest
        ]
  ]

  -- Rows that the update leaves out are selected as before.
  pub filter-map_where_other :
      (p q : Row → Bool) (f : Row → Row) (xs : List Row)
      → ((y : Row) → p y ≡ true → q y ≡ false)
      → ((y : Row) → p y ≡ true → q (f y) ≡ false)
      → filter q (map_where p f xs) ≡ filter q xs
  filter-map_where_other p q f [] apart apart' = refl
  filter-map_where_other p q f (y ∷ xs) apart apart' = elim (Bool-cases (p y)) [
    | inl hit ↦ rw (hit, apart y hit, apart' y hit) (filter-map_where_other p q f xs apart apart')
    | inr miss ↦ rw (miss, filter-map_where_other p q f xs apart apart')
  ]

  -- An update takes its rows out of a selection.
  pub filter-map_where_out :
      (p q q' : Row → Bool) (f : Row → Row) (xs : List Row)
      → ((y : Row) → p y ≡ true → q (f y) ≡ false)
      → ((y : Row) → p y ≡ true → q' y ≡ false)
      → ((y : Row) → p y ≡ false → q y ≡ q' y)
      → filter q (map_where p f xs) ≡ filter q' xs
  filter-map_where_out p q q' f [] out out' other = refl
  filter-map_where_out p q q' f (y ∷ xs) out out' other =
      let rest = filter-map_where_out p q q' f xs out out' other in
      elim (Bool-cases (p y)) [
        | inl hit ↦ rw (hit, out y hit, out' y hit) rest
        | inr miss ↦ rw (miss, other y miss, rest)
      ]
