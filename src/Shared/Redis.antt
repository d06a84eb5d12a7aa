-- ===== src/Shared/Redis.antt =====
-- The Redis server as the program uses it: src/modules/shared/redis/redis.service.ts calls the client
-- of a package, so the server is a parameter with named laws, and the service's methods are
-- defined over it. `Memory` is a store that satisfies the laws.
pub mod Memory
pub mod Locks
use nestjs_boilerplate.Base.{
  ℕ, ◌+◌, ◌<◌, ◌≡◌, Bool, true, false, Option, none, some, Text, text_eq, ◌&&◌, if◌then◌else◌,
}

-- One connection's commands, each atomic, as functions on the server's state. `get` reads a key;
-- `counter` is the number that a key holds for INCR, 0 for a missing one; `ttl` is the number of
-- seconds that a key has left, if it expires.
pub record Server : Type 1 where
  pub Store : Type 0
  pub get : Text → Store → Option Text
  pub counter : Text → Store → ℕ
  pub ttl : Text → Store → Option ℕ
  -- SET key value EX seconds
  pub set_ex : Text → Text → ℕ → Store → Store
  -- SET key value EX seconds NX: whether the reply is OK
  pub set_ex_nx : Text → Text → ℕ → Store → Bool × Store
  -- DEL key: the number of keys that it removed
  pub del : Text → Store → ℕ × Store
  pub incr : Text → Store → ℕ × Store
  pub expire : Text → ℕ → Store → ℕ × Store
  -- The script of `releaseLock`, which the server runs atomically: DEL if GET equals the argument.
  pub compare_and_delete : Text → Text → Store → ℕ × Store

-- Whether a reply is the text `v`.
abbrev pub holds : Text → Option Text → Bool
holds v none = false
holds v (some w) = text_eq w v

-- The documented behaviour of the commands. A law on another key is stated for every key, by the
-- test that tells the two apart.
pub record Laws (r : Server) : Type 0 where
  pub get-set_ex :
      (k j v : Text) (t : ℕ) (s : r.Store)
      → r.get j (r.set_ex k v t s) ≡ (if text_eq k j then some v else r.get j s)
  pub counter-set_ex :
      (k j v : Text) (t : ℕ) (s : r.Store)
      → text_eq k j ≡ false
      → r.counter j (r.set_ex k v t s) ≡ r.counter j s
  pub get-set_ex_nx :
      (k j v : Text) (t : ℕ) (s : r.Store)
      → r.get j (r.set_ex_nx k v t s).1
        ≡ (if (r.set_ex_nx k v t s).0 && text_eq k j then some v else r.get j s)
  pub set_ex_nx_free :
      (k v : Text) (t : ℕ) (s : r.Store) → r.get k s ≡ none → (r.set_ex_nx k v t s).0 ≡ true
  pub set_ex_nx_held :
      (k v w : Text) (t : ℕ) (s : r.Store) → r.get k s ≡ some w → (r.set_ex_nx k v t s).0 ≡ false
  pub get-del :
      (k j : Text) (s : r.Store) → r.get j (r.del k s).1 ≡ (if text_eq k j then none else r.get j s)
  pub counter-del :
      (k j : Text) (s : r.Store)
      → r.counter j (r.del k s).1 ≡ (if text_eq k j then 0 else r.counter j s)
  pub del_held : (k v : Text) (s : r.Store) → r.get k s ≡ some v → (r.del k s).0 ≡ 1
  pub incr_reply : (k : Text) (s : r.Store) → (r.incr k s).0 ≡ r.counter k s + 1
  pub get-incr :
      (k j : Text) (s : r.Store) → text_eq k j ≡ false → r.get j (r.incr k s).1 ≡ r.get j s
  pub counter-incr :
      (k j : Text) (s : r.Store)
      → r.counter j (r.incr k s).1 ≡ (if text_eq k j then r.counter k s + 1 else r.counter j s)
  -- A positive time to live removes nothing.
  pub get-expire :
      (k j : Text) (t : ℕ) (s : r.Store) → 0 < t → r.get j (r.expire k t s).1 ≡ r.get j s
  pub counter-expire :
      (k j : Text) (t : ℕ) (s : r.Store) → 0 < t → r.counter j (r.expire k t s).1 ≡ r.counter j s
  pub ttl-set_ex :
      (k j v : Text) (t : ℕ) (s : r.Store)
      → r.ttl j (r.set_ex k v t s) ≡ (if text_eq k j then some t else r.ttl j s)
  pub ttl-incr : (k j : Text) (s : r.Store) → r.ttl j (r.incr k s).1 ≡ r.ttl j s
  pub ttl-expire :
      (k j : Text) (t : ℕ) (s : r.Store)
      → 0 < r.counter k s
      → r.ttl j (r.expire k t s).1 ≡ (if text_eq k j then some t else r.ttl j s)
  pub get-compare_and_delete :
      (k j v : Text) (s : r.Store)
      → r.get j (r.compare_and_delete k v s).1
        ≡ (if text_eq k j && holds v (r.get k s) then none else r.get j s)

-- class RedisService. A method takes the state of the server and returns the next one; the draw of
-- `randomUUID` is an argument of `acquire_lock`.
module _ (r : Server) where
  unfoldable pub get : Text → r.Store → Option Text
  get key s = r.get key s

  unfoldable pub set_with_expiry_seconds : Text → Text → ℕ → r.Store → r.Store
  set_with_expiry_seconds key value ttl_seconds s = r.set_ex key value ttl_seconds s

  unfoldable pub del : Text → r.Store → ℕ × r.Store
  del key s = r.del key s

  unfoldable pub incr : Text → r.Store → ℕ × r.Store
  incr key s = r.incr key s

  unfoldable pub expire : Text → ℕ → r.Store → ℕ × r.Store
  expire key ttl_seconds s = r.expire key ttl_seconds s

  unfoldable pub acquire_lock : Text → Text → ℕ → r.Store → Option Text × r.Store
  acquire_lock uuid key ttl_seconds s =
      let (set, s') = r.set_ex_nx key uuid ttl_seconds s in (if set then some uuid else none, s')

  unfoldable pub release_lock : Text → Text → r.Store → r.Store
  release_lock key token s = (r.compare_and_delete key token s).1
