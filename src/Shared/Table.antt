-- ===== src/Shared/Table.antt =====
-- A database table as the repositories use it: the query builder and the database are not part of
-- the program, so the statements are a parameter with named laws. `Listed` is a table that
-- satisfies them.
pub mod Listed
pub mod Rows
use nestjs_boilerplate.Base.{
  ℕ, ◌≡◌, Bool, not, Option, none, some, List, [], ◌∷◌, ◌++◌, map, filter, any, if◌then◌else◌,
}

-- `rows` observes the table. An insert may be refused by a unique index; it and an update answer
-- with the rows that they wrote, as RETURNING does.
pub record Table (Row New : Type 0) : Type 1 where
  pub Db : Type 0
  pub rows : Db → List Row
  pub select_where : (Row → Bool) → Db → List Row
  pub update_where : (Row → Bool) → (Row → Row) → Db → List Row × Db
  pub insert : List New → Db → Option (List Row × Db)
  -- INSERT … ON CONFLICT (target) DO UPDATE SET …, where the test finds the row in conflict.
  pub upsert : New → (Row → Bool) → (Row → Row) → Db → Option (List Row × Db)
  pub delete_where : (Row → Bool) → Db → List Row × Db

-- UPDATE … SET … WHERE …, on the rows.
abbrev pub map_where : {Row : Type 0} → (Row → Bool) → (Row → Row) → List Row → List Row
map_where p f [] = []
map_where p f (x ∷ xs) = (if p x then f x else x) ∷ map_where p f xs

-- The rows of a reply, in the order of the inserted values.
abbrev pub AllFit : {Row New : Type 0} → (New → Row → Type 0) → List New → List Row → Type 0
AllFit Fits [] [] = Unit
AllFit Fits (new ∷ news) (row ∷ rows) = Fits new row × AllFit Fits news rows
AllFit Fits _ _ = ⊥

-- What the program relies on. `Fits` says which rows an inserted value can become: the columns
-- that it gives are kept.
pub record TableLaws {Row New : Type 0} (Fits : New → Row → Type 0) (t : Table Row New)
    : Type 0 where
  pub select-rows : (p : Row → Bool) (db : t.Db) → t.select_where p db ≡ filter p (t.rows db)
  pub rows-update :
      (p : Row → Bool) (f : Row → Row) (db : t.Db)
      → t.rows (t.update_where p f db).1 ≡ map_where p f (t.rows db)
  pub update_reply :
      (p : Row → Bool) (f : Row → Row) (db : t.Db)
      → (t.update_where p f db).0 ≡ map f (filter p (t.rows db))
  pub rows-insert :
      (news : List New) (db : t.Db) (added : List Row) (db' : t.Db)
      → t.insert news db ≡ some (added, db')
      → t.rows db' ≡ t.rows db ++ added
  pub insert_one :
      (new : New) (db : t.Db) (added : List Row) (db' : t.Db)
      → t.insert (new ∷ []) db ≡ some (added, db')
      → (row : Row) × (added ≡ row ∷ []) × Fits new row
  pub insert_fit :
      (news : List New) (db : t.Db) (added : List Row) (db' : t.Db)
      → t.insert news db ≡ some (added, db')
      → AllFit Fits news added
  pub rows-delete :
      (p : Row → Bool) (db : t.Db)
      → t.rows (t.delete_where p db).1 ≡ filter (λ x. not (p x)) (t.rows db)
  pub upsert_lem :
      (new : New) (p : Row → Bool) (f : Row → Row) (db : t.Db)
      → t.upsert new p f db
        ≡ (if any p (t.rows db) then some (t.update_where p f db) else t.insert (new ∷ []) db)
