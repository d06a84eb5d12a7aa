-- ===== src/Shared/Cache/Tests.antt =====
-- A request that is answered from the cache.
use nestjs_boilerplate.Base.{
  ◌≡◌, refl, [], false, some, Text, text_eq, codes, ok, pure, throw, failure,
}
use nestjs_boilerplate.Shared.Redis.Memory.{memory, memory-Laws, empty}
use nestjs_boilerplate.Shared.Cache.{CachePorts, World, CacheableOptions, Handler, handle_cacheable}
use nestjs_boilerplate.Shared.Cache.Hits.{handle_cacheable-handle_cacheable}

-- Texts are their own JSON.
abbrev ports : CachePorts
ports = record {
  redis = memory;
  Json = Text;
  is_undefined = λ _. false;
  stringify = λ s. s;
  parse = λ s. ok s;
  App = Unit;
}

abbrev world : World ports
world = record { store = empty; app = tt }

abbrev options : CacheableOptions Text
options = record { key = codes "countries"; ttl = 60; key_fn = some (λ args. codes "all") }

abbrev handler : Handler ports
handler = pure (codes "TR")

-- The second handler fails, and is not asked.
handle_cacheable-handle_cacheable_example :
    let w = (handle_cacheable ports options [] handler world).1 in
    handle_cacheable ports options [] (throw (failure "database down")) w ≡ (ok (codes "TR"), w)
unfolding handle_cacheable text_eq
handle_cacheable-handle_cacheable_example =
    handle_cacheable-handle_cacheable ports memory-Laws [] options handler
      (throw (failure "database down")) (codes "countries:all") (codes "TR") world refl refl refl
      refl
