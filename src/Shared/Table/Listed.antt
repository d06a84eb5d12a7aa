-- ===== src/Shared/Table/Listed.antt =====
-- A table as a list of rows with a serial key, which satisfies the laws: the hypotheses can be met.
use nestjs_boilerplate.Base.{
  subst, sym, ◌≡◌, ℕ, ◌+◌, refl, Bool, not, any, Option, none, some, List, [], ◌∷◌, ◌++◌, map,
  filter, arith, if◌then◌else◌, length,
}
use nestjs_boilerplate.Shared.Table.{AllFit, Table, TableLaws, map_where}

pub record Contents (Row : Type 0) : Type 0 where
  pub serial : ℕ
  pub list : List Row

-- `build` makes the row with the next key, the given columns and the defaults; `clashes` is the
-- test of the unique indices.
module _ {Row New : Type 0} (build : ℕ → New → Row) (clashes : New → Row → Bool) where
  abbrev build_all : ℕ → List New → List Row
  build_all n [] = []
  build_all n (new ∷ news) = build n new ∷ build_all (n + 1) news

  abbrev insert_all : List New → Contents Row → Option (List Row × Contents Row)
  insert_all news db =
      if any (λ new. any (clashes new) db.list) news
      then none
      else some (
        build_all db.serial news,
        record { serial = db.serial + length news; list = db.list ++ build_all db.serial news },
      )

  abbrev update_all : (Row → Bool) → (Row → Row) → Contents Row → List Row × Contents Row
  update_all p f db =
      (map f (filter p db.list), record { serial = db.serial; list = map_where p f db.list })

  abbrev pub listed : Table Row New
  listed = record {
    Db = Contents Row;
    rows = λ db. db.list;
    select_where = λ p db. filter p db.list;
    update_where = update_all;
    insert = insert_all;
    upsert =
        λ new p f db. if any p db.list then some (update_all p f db) else insert_all (new ∷ []) db;
    delete_where = λ p db.
        (filter p db.list, record { serial = db.serial; list = filter (λ x. not (p x)) db.list });
  }

  build_all-AllFit :
      (Fits : New → Row → Type 0)
      → ((n : ℕ) (new : New) → Fits new (build n new))
      → (n : ℕ) (news : List New) → AllFit Fits news (build_all n news)
  build_all-AllFit Fits fits n [] = tt
  build_all-AllFit Fits fits n (new ∷ news) = (fits n new, build_all-AllFit Fits fits (n + 1) news)

  insert_all-AllFit :
      (Fits : New → Row → Type 0)
      → ((n : ℕ) (new : New) → Fits new (build n new))
      → (news : List New) (db : Contents Row) (added : List Row) (db' : Contents Row)
      → insert_all news db ≡ some (added, db')
      → AllFit Fits news added
  insert_all-AllFit Fits fits news db added db' e =
      let same : added ≡ build_all db.serial news = ground arith in
      subst (AllFit Fits news) (sym same) (build_all-AllFit Fits fits db.serial news)

  pub listed-TableLaws :
      (Fits : New → Row → Type 0)
      → ((n : ℕ) (new : New) → Fits new (build n new))
      → TableLaws Fits listed
  listed-TableLaws Fits fits = record {
    select-rows = λ p db. refl;
    rows-update = λ p f db. refl;
    update_reply = λ p f db. refl;
    rows-insert = λ news db added db' e. ground arith;
    insert_one = λ new db added db' e. (build db.serial new, ground arith, fits db.serial new);
    insert_fit = insert_all-AllFit Fits fits;
    rows-delete = λ p db. refl;
    upsert_lem = λ new p f db. refl;
  }
