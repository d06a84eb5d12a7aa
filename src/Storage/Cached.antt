-- ===== src/Storage/Cached.antt =====
-- src/modules/platform/storage/services/cached-storage.service.ts: the decorator that caches the
-- presigned URLs for reading in Redis.
pub mod Agreement
use nestjs_boilerplate.Base.{
  ℕ, ◌-◌, ltb, Bool, true, false, not, Option, none, some, List, [], ◌∷◌, ◌++◌, map, filter, unique,
  lookup, set_key, or_default, Text, codes, Action, pure, modify, ◌>>=◌, ◌>>◌,
}
use nestjs_boilerplate.Shared.Redis.{Server}
use nestjs_boilerplate.Storage.{StorageService, PresignReadParams}

-- `presign_expires` is the setting GCS_PRESIGN_EXPIRES.
pub record CachedPorts : Type 1 where
  pub redis : Server
  pub inner : StorageService
  pub presign_expires : Option ℕ

abbrev pub presign_cache_prefix : Text
presign_cache_prefix = codes "presign:read:"

abbrev pub cache_margin_seconds : ℕ
cache_margin_seconds = 60

-- `if (value)`: the empty string counts as nothing.
abbrev pub if_text : Option Text → Option Text
if_text (some (c ∷ s)) = some (c ∷ s)
if_text _ = none

abbrev pub is_missing : Option Text → Bool
is_missing none = true
is_missing (some _) = false

-- `fresh.forEach((url, key) => result.set(key, url))`
abbrev pub set_all : List (Text × Text) → List (Text × Text) → List (Text × Text)
set_all [] result = result
set_all ((key, url) ∷ fresh) result = set_all fresh (set_key key url result)

module _ (p : CachedPorts) where
  pub record World : Type 0 where
    pub store : p.redis.Store
    pub objects : p.inner.State

module _ (p : CachedPorts) where
  abbrev pub Method : Type 0 → Type 0
  Method A = Action (World p) A

  abbrev pub on_inner : {A : Type 0} → Action p.inner.State A → Method A
  on_inner m w = let (x, objects) = m w.objects in (x, record w { objects = objects })

  -- `Math.max(0, presignExpiry - CACHE_MARGIN_SECONDS)`
  unfoldable pub cache_ttl : Option ℕ → ℕ
  cache_ttl expires_in =
      or_default expires_in (or_default p.presign_expires 900) - cache_margin_seconds

  abbrev pub cached : Text → World p → Option Text
  cached key w = if_text (p.redis.get (presign_cache_prefix ++ key) w.store)

  abbrev pub remember : ℕ → Text → Text → World p → World p
  remember ttl key url w = record w {
    store = p.redis.set_ex (presign_cache_prefix ++ key) url ttl w.store;
  }

  abbrev sign_and_cache : ℕ → PresignReadParams → Method Text
  sign_and_cache ttl params = on_inner (p.inner.presign_read params) >>= λ url.
      modify (remember ttl params.key url) >> pure url

  abbrev or_sign : Option Text → Method Text → Method Text
  or_sign (some url) m = pure url
  or_sign none m = m

  unfoldable pub presign_read : PresignReadParams → Method Text
  unfolding cache_ttl
  presign_read params w =
      let ttl = cache_ttl params.expires_in in
      elim (ltb 0 ttl) [
        | true ↦ or_sign (cached params.key w) (sign_and_cache ttl params) w
        | false ↦ on_inner (p.inner.presign_read params) w
      ]

  -- The replies of MGET that hold a URL, each under its key.
  abbrev pub hits : List Text → World p → List (Text × Text)
  hits [] w = []
  hits (key ∷ keys) w =
      let rest = hits keys w in elim (cached key w) [ some url ↦ (key, url) ∷ rest | none ↦ rest ]

  abbrev pub missing : List Text → World p → List Text
  missing keys w = filter (λ key. is_missing (cached key w)) keys

  -- The pipeline's commands, one after another.
  abbrev pub remember_all : ℕ → List (Text × Text) → World p → World p
  remember_all ttl [] w = w
  remember_all ttl ((key, url) ∷ fresh) w = remember_all ttl fresh (remember ttl key url w)

  abbrev sign_missing : ℕ → Option ℕ → List (Text × Text) → List Text → Method (List (Text × Text))
  sign_missing ttl expires_in result [] = pure result
  sign_missing ttl expires_in result (key ∷ keys) =
      on_inner (p.inner.presign_read_many (key ∷ keys) expires_in) >>= λ fresh.
      modify (remember_all ttl fresh) >> pure (set_all fresh result)

  abbrev read_unique : List Text → Option ℕ → Method (List (Text × Text))
  unfolding cache_ttl
  read_unique [] expires_in w = pure [] w
  read_unique (key ∷ keys) expires_in w =
      let ttl = cache_ttl expires_in in
      elim (ltb 0 ttl) [
        | true ↦ sign_missing ttl expires_in (hits (key ∷ keys) w) (missing (key ∷ keys) w) w
        | false ↦ on_inner (p.inner.presign_read_many (key ∷ keys) expires_in) w
      ]

  unfoldable pub presign_read_many : List Text → Option ℕ → Method (List (Text × Text))
  unfolding read_unique
  presign_read_many keys expires_in = read_unique (unique keys) expires_in

  -- The decorator is the port again; the other methods delegate.
  unfoldable pub cached_storage_service : StorageService
  unfolding presign_read presign_read_many
  cached_storage_service = record {
    State = World p;
    presign_upload = λ params. on_inner (p.inner.presign_upload params);
    presign_read = presign_read;
    presign_read_many = presign_read_many;
    object_exists = λ key. on_inner (p.inner.object_exists key);
    list_objects = λ prefix. on_inner (p.inner.list_objects prefix);
    delete_object = λ key. on_inner (p.inner.delete_object key);
    copy_object = λ src_key dest_key. on_inner (p.inner.copy_object src_key dest_key);
    download_object = λ key. on_inner (p.inner.download_object key);
    upload_object = λ key body content_type cache_control.
        on_inner (p.inner.upload_object key body content_type cache_control);
  }
