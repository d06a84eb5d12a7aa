-- ===== src/Shared/Cache.antt =====
-- src/modules/shared/common/interceptors/cache.interceptor.ts and utils/cache-key.util.ts: the cache of
-- handlers' answers in Redis.
pub mod Hits
mod Tests
use nestjs_boilerplate.Base.{
  ℕ, Bool, true, false, Option, none, some, List, [], ◌∷◌, ◌++◌, Text, codes, Result, ok, err,
  Action, pure, modify, ◌>>=◌, ◌>>◌,
}
use nestjs_boilerplate.Shared.Redis
use nestjs_boilerplate.Shared.Redis.{Server}

-- The server and JSON; a result that is `undefined` is not written.
pub record CachePorts : Type 1 where
  pub redis : Server
  pub Json : Type 0
  pub is_undefined : Json → Bool
  pub stringify : Json → Text
  pub parse : Text → Result Json
  -- the state that handlers work on besides Redis
  pub App : Type 0

module _ (p : CachePorts) where
  pub record World : Type 0 where
    pub store : p.redis.Store
    pub app : p.App

pub record CacheableOptions (Arg : Type 0) : Type 0 where
  pub key : Text
  pub ttl : ℕ
  pub key_fn : Option (List Arg → Text)

pub record CacheEvictOptions (Arg : Type 0) : Type 0 where
  pub key : Text
  pub key_fn : Option (List Arg → Text)

abbrev pub build_cache_key : {Arg : Type 0} → Text → Option (List Arg → Text) → List Arg → Text
build_cache_key key none args = key
build_cache_key key (some key_fn) args = key ++ codes ":" ++ key_fn args

-- A handler with arguments and no key function is not cached.
abbrev pub cacheable_key : {Arg : Type 0} → Text → Option (List Arg → Text) → List Arg → Option Text
cacheable_key key none (_ ∷ _) = none
cacheable_key key none [] = some key
cacheable_key key (some key_fn) args = some (build_cache_key key (some key_fn) args)

-- The metadata of a handler; `@Cacheable` is asked for first.
pub data CacheMark (Arg : Type 0) : Type 0 where
  cacheable : CacheableOptions Arg → CacheMark Arg
  evicting : CacheEvictOptions Arg → CacheMark Arg
  unmarked : CacheMark Arg

module _ (p : CachePorts) where
  abbrev pub Handler : Type 0
  Handler = Action (World p) p.Json

  abbrev parsed : Option Text → Option (Result p.Json)
  parsed none = none
  parsed (some raw) = some (p.parse raw)

  -- `readCache`: a text that does not parse is a miss.
  abbrev hit : Option (Result p.Json) → Option p.Json
  hit (some (ok value)) = some value
  hit _ = none

  abbrev pub read_cache : Text → World p → Option p.Json
  unfolding Redis.get
  read_cache key w = hit (parsed (Redis.get p.redis key w.store))

  abbrev pub write_cache : Text → p.Json → ℕ → World p → World p
  unfolding Redis.set_with_expiry_seconds
  write_cache key result ttl w = elim (p.is_undefined result) [
    | true ↦ w
    | false ↦ record w {
      store = Redis.set_with_expiry_seconds p.redis key (p.stringify result) ttl w.store;
    }
  ]

  abbrev pub evict : Text → World p → World p
  unfolding Redis.del
  evict key w = record w { store = (Redis.del p.redis key w.store).1 }

  abbrev or_handle : Option p.Json → Handler → Handler
  or_handle (some value) m = pure value
  or_handle none m = m

  abbrev cached_under : Text → ℕ → Handler → Handler
  unfolding read_cache write_cache
  cached_under key ttl handle w =
      or_handle (read_cache key w)
        (handle >>= λ result. modify (write_cache key result ttl) >> pure result) w

  abbrev if_key : Option Text → ℕ → Handler → Handler
  unfolding cached_under
  if_key none ttl handle = handle
  if_key (some key) ttl handle = cached_under key ttl handle

  unfoldable pub handle_cacheable :
      {Arg : Type 0} → CacheableOptions Arg → List Arg → Handler → Handler
  unfolding if_key
  handle_cacheable opts args handle =
      if_key (cacheable_key opts.key opts.key_fn args) opts.ttl handle

  unfoldable pub handle_evict :
      {Arg : Type 0} → CacheEvictOptions Arg → List Arg → Handler → Handler
  unfolding evict
  handle_evict opts args handle =
      handle >>= λ result. modify (evict (build_cache_key opts.key opts.key_fn args)) >> pure result

  -- `intercept`, for a context of the given kind.
  unfoldable pub intercept : {Arg : Type 0} → Bool → CacheMark Arg → List Arg → Handler → Handler
  unfolding handle_cacheable handle_evict
  intercept false mark args handle = handle
  intercept true (cacheable opts) args handle = handle_cacheable opts args handle
  intercept true (evicting opts) args handle = handle_evict opts args handle
  intercept true unmarked args handle = handle
