-- ===== src/Shared/Users/Laws.antt =====
-- The lookups of the repository after its updates.
use nestjs_boilerplate.Base.{
  ℕ, ◌≡◌, refl, ◌≢◌, Bool, true, Option, some, head?, Text, arith, if◌then◌else◌, ◌∙◌, ap,
}
use nestjs_boilerplate.Shared.Table.{TableLaws}
use nestjs_boilerplate.Shared.Table.Rows.{
  head-filter, head-filter-map_where, filter-map_where_other,
}
use nestjs_boilerplate.Shared.Users.{
  User, UserTable, Fits, has_id, has_email, set_refresh_token, set_password, find_by_id,
  find_by_email, update_refresh_token, update_password, update_password_by_id, column_eq,
}

module _ (t : UserTable) (laws : TableLaws Fits t) where
  -- A user that is found has the id, or the address, that was asked for.
  pub find_by_id_sound : (id : ℕ) (db : t.Db) {u : User} → find_by_id t id db ≡ some u → u.id ≡ id
  unfolding find_by_id
  find_by_id_sound id db {u} h =
      let hit = head-filter (has_id id) (t.rows db) (rw (laws.select-rows (has_id id) db) at h) in
      ground arith

  -- The user that a lookup finds, after an update that the lookup's column is not part of.
  select_update :
      (q p : User → Bool) (f : User → User) (db : t.Db) {u : User}
      → ((y : User) → q (f y) ≡ q y)
      → head? (t.select_where q db) ≡ some u
      → head? (t.select_where q (t.update_where p f db).1) ≡ some (if p u then f u else u)
  select_update q p f db keep h =
      rw (laws.select-rows, laws.rows-update)
        (head-filter-map_where q p f (t.rows db) keep (rw laws.select-rows at h))

  pub find_by_id-update_refresh_token :
      (now id : ℕ) (token : Option Text) (db : t.Db) {u : User}
      → find_by_id t id db ≡ some u
      → find_by_id t id (update_refresh_token t now id token db)
        ≡ some (set_refresh_token now token u)
  unfolding find_by_id update_refresh_token
  find_by_id-update_refresh_token now id token db {u} h =
      select_update (has_id id) (has_id id) (set_refresh_token now token) db (λ y. refl) h
      ∙ ground (arith, find_by_id_sound id db h)

  -- An update of one user's row does not show in the row of another.
  pub find_by_id-update_refresh_token_ne :
      (now id other : ℕ) (token : Option Text) (db : t.Db)
      → id ≢ other
      → find_by_id t other (update_refresh_token t now id token db) ≡ find_by_id t other db
  unfolding find_by_id update_refresh_token
  find_by_id-update_refresh_token_ne now id other token db ne =
      rw (laws.select-rows, laws.rows-update, laws.select-rows)
        (ap head? (
          filter-map_where_other (has_id id) (has_id other) (set_refresh_token now token)
            (t.rows db) (λ y hit. ground arith) (λ y hit. ground arith)))

  pub find_by_email_sound :
      (email : Text) (db : t.Db) {u : User}
      → find_by_email t email db ≡ some u
      → column_eq u.email email ≡ true
  unfolding find_by_email
  find_by_email_sound email db h =
      head-filter (has_email email) (t.rows db) (rw (laws.select-rows (has_email email) db) at h)

  pub find_by_email-update_password :
      (now : ℕ) (email hash : Text) (db : t.Db) {u : User}
      → find_by_email t email db ≡ some u
      → find_by_email t email (update_password t now email hash db) ≡ some (set_password now hash u)
  unfolding find_by_email update_password
  find_by_email-update_password now email hash db {u} h =
      select_update (has_email email) (has_email email) (set_password now hash) db (λ y. refl) h
      ∙ ground (arith, find_by_email_sound email db h)

  pub find_by_email-update_refresh_token :
      (now : ℕ) (email : Text) (token : Option Text) (db : t.Db) {u : User}
      → find_by_email t email db ≡ some u
      → find_by_email t email (update_refresh_token t now u.id token db)
        ≡ some (set_refresh_token now token u)
  unfolding find_by_email update_refresh_token
  find_by_email-update_refresh_token now email token db {u} h =
      select_update (has_email email) (has_id u.id) (set_refresh_token now token) db (λ y. refl) h
      ∙ ground arith

  pub find_by_id-update_password_by_id :
      (now id : ℕ) (hash : Text) (db : t.Db) {u : User}
      → find_by_id t id db ≡ some u
      → find_by_id t id (update_password_by_id t now id hash db) ≡ some (set_password now hash u)
  unfolding find_by_id update_password_by_id
  find_by_id-update_password_by_id now id hash db {u} h =
      select_update (has_id id) (has_id id) (set_password now hash) db (λ y. refl) h
      ∙ ground (arith, find_by_id_sound id db h)
