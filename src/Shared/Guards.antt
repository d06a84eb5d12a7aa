-- ===== src/Shared/Guards.antt =====
-- src/modules/shared/common/guards, with constants/role-permissions.constant.ts and the enums of roles
-- and permissions, and src/modules/platform/auth/strategies/jwt.strategy.ts.
use nestjs_boilerplate.Base.{
  ℕ, Bool, true, false, Option, none, some, List, [], ◌∷◌, all, any, if◌then◌else◌, Exception,
  domain, unauthorized, Text, Result, ok, err,
}
use nestjs_boilerplate.Shared.Users
use nestjs_boilerplate.Shared.Users.{AuthProvider, User, UserTable}

pub data UserRole : Type 0 where
  admin user : UserRole

pub data Permission : Type 0 where
  manage_users manage_content manage_settings : Permission

abbrev pub same_role : UserRole → UserRole → Bool
same_role admin admin = true
same_role user user = true
same_role _ _ = false

abbrev pub same_permission : Permission → Permission → Bool
same_permission manage_users manage_users = true
same_permission manage_content manage_content = true
same_permission manage_settings manage_settings = true
same_permission _ _ = false

abbrev pub role_permissions : UserRole → List Permission
role_permissions admin = manage_users ∷ manage_content ∷ manage_settings ∷ []
role_permissions user = []

-- `@Roles(…)` of the handler or its class, and `request.user?.role`.
unfoldable pub roles_guard : Option (List UserRole) → Option UserRole → Result Bool
roles_guard none role = ok true
roles_guard (some []) role = ok true
roles_guard (some (r ∷ rs)) none = err (domain "COMMON_FORBIDDEN")
roles_guard (some (r ∷ rs)) (some role) =
    if any (same_role role) (r ∷ rs) then ok true else err (domain "COMMON_FORBIDDEN")

-- `@RequirePermission(…)`
unfoldable pub permission_guard : Option (List Permission) → Option UserRole → Result Bool
permission_guard none role = ok true
permission_guard (some []) role = ok true
permission_guard (some (q ∷ qs)) none = err (domain "COMMON_FORBIDDEN_MISSING_PERMISSION")
permission_guard (some (q ∷ qs)) (some role) =
    if all (λ p. any (same_permission p) (role_permissions role)) (q ∷ qs)
    then ok true
    else err (domain "COMMON_FORBIDDEN_MISSING_PERMISSION")

-- `handleRequest` of ProdAdminGuard: the strategy's error, and its user with a role.
abbrev pub admin_only : Option UserRole → Result UserRole
admin_only (some admin) = ok admin
admin_only _ = err (domain "COMMON_FORBIDDEN_ADMIN_ONLY")

unfoldable pub prod_admin_guard : Option Exception → Option (Option UserRole) → Result UserRole
prod_admin_guard (some e) principal = err e
prod_admin_guard none none = err (unauthorized "Unauthorized")
prod_admin_guard none (some role) = admin_only role

-- JwtAuthGuard: a public route passes, any other is left to the strategy.
unfoldable pub jwt_auth_guard : Bool → Result Bool → Result Bool
jwt_auth_guard is_public strategy = if is_public then ok true else strategy

-- `Omit<User, 'password'>`
pub record Principal : Type 0 where
  pub id : ℕ
  pub email : Option Text
  pub phone : Option Text
  pub first_name : Option Text
  pub last_name : Option Text
  pub is_active : Bool
  pub refresh_token : Option Text
  pub provider : Option AuthProvider
  pub provider_id : Option Text
  pub picture : Option Text
  pub email_verified : Bool
  pub phone_verified : Bool
  pub created_at : ℕ
  pub updated_at : ℕ

abbrev pub without_password : User → Principal
without_password u = record {
  id = u.id;
  email = u.email;
  phone = u.phone;
  first_name = u.first_name;
  last_name = u.last_name;
  is_active = u.is_active;
  refresh_token = u.refresh_token;
  provider = u.provider;
  provider_id = u.provider_id;
  picture = u.picture;
  email_verified = u.email_verified;
  phone_verified = u.phone_verified;
  created_at = u.created_at;
  updated_at = u.updated_at;
}

-- `JwtStrategy.validate`, for the `sub` of a token that the package has verified.
unfoldable pub validate : (t : UserTable) → t.Db → ℕ → Option Principal
unfolding Users.find_by_id
validate t db sub = principal (Users.find_by_id t sub db)
  where
    principal : Option User → Option Principal
    principal none = none
    principal (some u) = some (without_password u)
