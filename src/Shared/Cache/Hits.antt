-- ===== src/Shared/Cache/Hits.antt =====
-- What a second request is answered with.
use nestjs_boilerplate.Base.{
  ℕ, ◌≡◌, ap, sym, ◌∙◌, false, Option, none, some, List, Text, text_eq_refl, Result, ok, arith,
  Result-cases, Option-cases, inl, inr, pure, modify, ◌>>=◌, ◌>>◌,
}
use nestjs_boilerplate.Shared.Redis
use nestjs_boilerplate.Shared.Redis.{Laws}
use nestjs_boilerplate.Shared.Cache.{
  CachePorts, World, Handler, CacheableOptions, CacheEvictOptions, build_cache_key, cacheable_key,
  read_cache, write_cache, evict, or_handle, cached_under, if_key, handle_cacheable, handle_evict,
}

module _ (p : CachePorts) (laws : Laws p.redis) where
  cached_hit :
      (key : Text) (ttl : ℕ) (handle : Handler p) (value : p.Json) (w : World p)
      → read_cache p key w ≡ some value
      → cached_under p key ttl handle w ≡ (ok value, w)
  unfolding cached_under
  cached_hit key ttl handle value w hit =
      ap
        (λ (o : Option p.Json).
          or_handle p o (handle >>= λ result. modify (write_cache p key result ttl) >> pure result)
            w)
        hit

  read-write :
      (key : Text) (ttl : ℕ) (value : p.Json) (w : World p)
      → p.is_undefined value ≡ false
      → p.parse (p.stringify value) ≡ ok value
      → read_cache p key (write_cache p key value ttl w) ≡ some value
  unfolding write_cache read_cache Redis.get Redis.set_with_expiry_seconds
  read-write key ttl value w defined json =
      let stored = laws.get-set_ex key key (p.stringify value) ttl w.store in
      let same = text_eq_refl key in ground (arith, defined, json, stored, same)

  -- A request that is answered with a value that JSON gives back leaves the value in the cache.
  cached_answer :
      (key : Text) (ttl : ℕ) (handle : Handler p) (value : p.Json) (w : World p)
      → (cached_under p key ttl handle w).0 ≡ ok value
      → p.is_undefined value ≡ false
      → p.parse (p.stringify value) ≡ ok value
      → read_cache p key (cached_under p key ttl handle w).1 ≡ some value
  unfolding cached_under
  cached_answer key ttl handle value w answered defined json =
      elim (Option-cases (read_cache p key w)) [
        | inr (old, hit) ↦ ground (arith, hit, answered)
        | inl miss ↦ elim (Result-cases (handle w).0) [
          | inl (result, done) ↦
              let same : result ≡ value = ground (arith, miss, done, answered) in
              let kept = read-write key ttl value (handle w).1 defined json in
              ground (arith, miss, done, same, kept)
          | inr (e, failed) ↦ ground (arith, miss, failed, answered)
        ]
      ]

module _ (p : CachePorts) (laws : Laws p.redis) {Arg : Type 0} (args : List Arg) where
  keyed_lem :
      (opts : CacheableOptions Arg) (handle : Handler p) (key : Text) (w : World p)
      → cacheable_key opts.key opts.key_fn args ≡ some key
      → handle_cacheable p opts args handle w ≡ cached_under p key opts.ttl handle w
  unfolding handle_cacheable
  keyed_lem opts handle key w keyed = ap (λ (o : Option Text). if_key p o opts.ttl handle w) keyed

  -- A request with a key that is answered with a value, one that is not `undefined` and that JSON
  -- gives back: the next request with the key is answered with the same value from the cache,
  -- whatever its handler would do, and changes nothing.
  pub handle_cacheable-handle_cacheable :
      (opts : CacheableOptions Arg) (handle again : Handler p) (key : Text) (value : p.Json)
      (w : World p)
      → cacheable_key opts.key opts.key_fn args ≡ some key
      → (handle_cacheable p opts args handle w).0 ≡ ok value
      → p.is_undefined value ≡ false
      → p.parse (p.stringify value) ≡ ok value
      → handle_cacheable p opts args again (handle_cacheable p opts args handle w).1
        ≡ (ok value, (handle_cacheable p opts args handle w).1)
  handle_cacheable-handle_cacheable opts handle again key value w keyed answered defined json =
      let first = keyed_lem opts handle key w keyed in
      let w' = (handle_cacheable p opts args handle w).1 in
      let kept =
        cached_answer p laws key opts.ttl handle value w
          (ap (λ (x : Result p.Json × World p). x.0) (sym first) ∙ answered) defined json in
      keyed_lem opts again key w' keyed
      ∙ cached_hit p laws key opts.ttl again value w'
          (ap (λ (x : Result p.Json × World p). read_cache p key x.1) first ∙ kept)

  -- After a handler that evicts a key has answered, the cache has nothing under the key.
  pub read_cache-handle_evict :
      (opts : CacheEvictOptions Arg) (handle : Handler p) (value : p.Json) (w : World p)
      → (handle_evict p opts args handle w).0 ≡ ok value
      → read_cache p
          (build_cache_key opts.key opts.key_fn args)
          (handle_evict p opts args handle w).1
        ≡ none
  unfolding handle_evict read_cache evict Redis.get Redis.del
  read_cache-handle_evict opts handle value w answered =
      let key = build_cache_key opts.key opts.key_fn args in
      let gone = laws.get-del key key (handle w).1.store in
      let same = text_eq_refl key in
      elim (Result-cases (handle w).0) [
        | inl (result, done) ↦ ground (arith, done, gone, same)
        | inr (e, failed) ↦ ground (arith, failed, answered)
      ]
