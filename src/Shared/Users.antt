-- ===== src/Shared/Users.antt =====
-- src/modules/shared/database/repositories/user.repository.ts, over the table of
-- src/modules/shared/database/schema/user.schema.ts. Dates are numbers; `now` is the value of
-- `new Date()`, which the schema writes into `updatedAt` at each update.
pub mod Laws
use nestjs_boilerplate.Base.{
  ℕ, ◌==◌, ◌≡◌, Bool, true, false, Option, none, some, List, [], ◌∷◌, head?, Text, text_eq, any,
  if◌then◌else◌,
}
use nestjs_boilerplate.Shared.Table.{Table, TableLaws}

pub data AuthProvider : Type 0 where
  google apple : AuthProvider

pub record User : Type 0 where
  pub id : ℕ
  pub email : Option Text
  pub phone : Option Text
  pub password : Option Text
  pub first_name : Option Text
  pub last_name : Option Text
  pub is_active : Bool
  pub refresh_token : Option Text
  pub provider : Option AuthProvider
  pub provider_id : Option Text
  pub picture : Option Text
  pub email_verified : Bool
  pub phone_verified : Bool
  pub created_at : ℕ
  pub updated_at : ℕ

-- The columns that an insert gives; the others take the defaults of the schema.
pub record NewUser : Type 0 where
  pub email : Option Text
  pub phone : Option Text
  pub password : Option Text
  pub first_name : Option Text
  pub last_name : Option Text
  pub is_active : Bool
  pub provider : Option AuthProvider
  pub provider_id : Option Text
  pub picture : Option Text
  pub email_verified : Bool
  pub phone_verified : Bool

pub record UpsertOAuthUser : Type 0 where
  pub email : Text
  pub first_name : Option Text
  pub last_name : Option Text
  -- `none` is undefined, which a SET clause leaves out; `some none` is null.
  pub picture : Option (Option Text)
  pub provider : AuthProvider
  pub provider_id : Text

-- `eq(column, value)` at a nullable column: NULL equals nothing.
unfoldable pub column_eq : Option Text → Text → Bool
column_eq none v = false
column_eq (some w) v = text_eq w v

-- `value && { … }`: a string that is present and not empty.
unfoldable pub truthy : Option Text → Option Text
truthy (some (c ∷ s)) = some (c ∷ s)
truthy _ = none

abbrev pub or_old : Option Text → Option Text → Option Text
or_old none old = old
or_old (some v) old = some v

abbrev pub given : Option (Option Text) → Option Text → Option Text
given none old = old
given (some v) old = v

-- The columns of an inserted row: what was given, and no refresh token.
pub record Fits (new : NewUser) (u : User) : Type 0 where
  pub email : u.email ≡ new.email
  pub phone : u.phone ≡ new.phone
  pub password : u.password ≡ new.password
  pub first_name : u.first_name ≡ new.first_name
  pub last_name : u.last_name ≡ new.last_name
  pub is_active : u.is_active ≡ new.is_active
  pub refresh_token : u.refresh_token ≡ none
  pub email_verified : u.email_verified ≡ new.email_verified
  pub phone_verified : u.phone_verified ≡ new.phone_verified

abbrev pub UserTable : Type 1
UserTable = Table User NewUser

abbrev has_id : ℕ → User → Bool
has_id id u = u.id == id

abbrev pub has_email : Text → User → Bool
has_email email u = column_eq u.email email

-- The SET clauses.
abbrev pub set_email_verified : ℕ → User → User
set_email_verified now u = record u { email_verified = true; updated_at = now }

abbrev pub set_password : ℕ → Text → User → User
set_password now hash u = record u { password = some hash; updated_at = now }

abbrev pub set_refresh_token : ℕ → Option Text → User → User
set_refresh_token now token u = record u { refresh_token = token; updated_at = now }

abbrev pub set_oauth : ℕ → UpsertOAuthUser → User → User
set_oauth now d u = record u {
  provider = some d.provider;
  provider_id = some d.provider_id;
  picture = given d.picture u.picture;
  email_verified = true;
  first_name = or_old (truthy d.first_name) u.first_name;
  last_name = or_old (truthy d.last_name) u.last_name;
  updated_at = now;
}

abbrev pub oauth_values : UpsertOAuthUser → NewUser
oauth_values d = record {
  email = some d.email;
  phone = none;
  password = none;
  first_name = d.first_name;
  last_name = d.last_name;
  is_active = true;
  provider = some d.provider;
  provider_id = some d.provider_id;
  picture = given d.picture none;
  email_verified = true;
  phone_verified = false;
}

module _ (t : UserTable) where
  unfoldable pub find_by_email : Text → t.Db → Option User
  find_by_email email db = head? (t.select_where (has_email email) db)

  unfoldable pub find_by_id : ℕ → t.Db → Option User
  find_by_id id db = head? (t.select_where (has_id id) db)

  unfoldable pub find_by_phone : Text → t.Db → Option User
  find_by_phone phone db = head? (t.select_where (λ u. column_eq u.phone phone) db)

  unfoldable pub mark_email_verified : ℕ → ℕ → t.Db → t.Db
  mark_email_verified now id db = (t.update_where (has_id id) (set_email_verified now) db).1

  unfoldable pub update_password_by_id : ℕ → ℕ → Text → t.Db → t.Db
  update_password_by_id now id hash db = (t.update_where (has_id id) (set_password now hash) db).1

  unfoldable pub update_refresh_token : ℕ → ℕ → Option Text → t.Db → t.Db
  update_refresh_token now id token db =
      (t.update_where (has_id id) (set_refresh_token now token) db).1

  unfoldable pub update_password : ℕ → Text → Text → t.Db → t.Db
  update_password now email hash db =
      (t.update_where (has_email email) (set_password now hash) db).1

  -- `none` is the exception of a unique index; otherwise the row that RETURNING gives, if any.
  unfoldable pub create : NewUser → t.Db → Option (Option User × t.Db)
  create new db = elim (t.insert (new ∷ []) db) [
    | none ↦ none
    | some (added, db') ↦ some (head? added, db')
  ]

  unfoldable pub upsert_oauth_user : ℕ → UpsertOAuthUser → t.Db → Option (Option User × t.Db)
  upsert_oauth_user now d db =
      elim (t.upsert (oauth_values d) (has_email d.email) (set_oauth now d) db) [
        | none ↦ none
        | some (written, db') ↦ some (head? written, db')
      ]
