-- ===== src/Shared/Redis/Locks.antt =====
-- src/modules/shared/redis/redis.service.ts, the fencing lock: `acquireLock` and `releaseLock`.
use nestjs_boilerplate.Base.{
  ℕ, ◌≡◌, none, some, Text, text_eq, text_eq_refl, if◌then◌else◌, Bool-cases, arith, inl, inr,
}
use nestjs_boilerplate.Shared.Redis.{Server, Laws, acquire_lock, release_lock}

module _ (r : Server) (laws : Laws r) where
  -- A free lock is acquired with the draw as its token; a release then frees it exactly if its
  -- token is that one, and otherwise leaves it to the holder; and the next `acquireLock` succeeds
  -- exactly if the lock was freed.
  pub release_lock-acquire_lock :
      (key holder token next : Text) (ttl again : ℕ) (s : r.Store)
      → r.get key s ≡ none
      → ((acquire_lock r holder key ttl s).0 ≡ some holder)
        × (r.get key (release_lock r key token (acquire_lock r holder key ttl s).1)
            ≡ (if text_eq holder token then none else some holder))
        × ((acquire_lock r next key again
              (release_lock r key token (acquire_lock r holder key ttl s).1)).0
            ≡ (if text_eq holder token then some next else none))
  unfolding acquire_lock release_lock
  release_lock-acquire_lock key holder token next ttl again s free =
      let s' = (r.set_ex_nx key holder ttl s).1 in
      let set = laws.set_ex_nx_free key holder ttl s free in
      let now_held = laws.get-set_ex_nx key key holder ttl s in
      let same = text_eq_refl key in
      let released = laws.get-compare_and_delete key key token s' in
      let s'' = (r.compare_and_delete key token s').1 in
      let refused = laws.set_ex_nx_held key next holder again s'' in
      let taken = laws.set_ex_nx_free key next again s'' in
      elim (Bool-cases (text_eq holder token)) [
        | inl eq ↦ ground (arith, set, now_held, same, released, refused, taken, eq)
        | inr ne ↦ ground (arith, set, now_held, same, released, refused, taken, ne)
      ]

  -- While a lock is held, `acquireLock` returns nothing and the holder keeps it.
  pub acquire_lock_excludes :
      (key holder other : Text) (ttl : ℕ) (s : r.Store)
      → r.get key s ≡ some holder
      → ((acquire_lock r other key ttl s).0 ≡ none)
        × (r.get key (acquire_lock r other key ttl s).1 ≡ some holder)
  unfolding acquire_lock
  acquire_lock_excludes key holder other ttl s held =
      let set = laws.set_ex_nx_held key other holder ttl s held in
      let kept = laws.get-set_ex_nx key key other ttl s in ground (arith, set, kept, held)
