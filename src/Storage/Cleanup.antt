-- ===== src/Storage/Cleanup.antt =====
-- src/modules/platform/storage/services/media-cleanup.service.ts: the weekly sweep that deletes the
-- objects which nothing refers to.
pub mod Safety
pub mod Locked
use nestjs_boilerplate.Base.{
  ℕ, ◌+◌, ◌-◌, ltb, ◌&&◌, Bool, true, false, not, Option, none, some, List, [], ◌∷◌, filter, length,
  has, Text, codes, if◌then◌else◌, Result, Action, pure, try_catch, ◌>>=◌, ◌>>◌,
}
use nestjs_boilerplate.Shared.Redis
use nestjs_boilerplate.Shared.Redis.{Server}
use nestjs_boilerplate.Storage.{StorageService, StorageObjectInfo}

pub record MediaPrefixSpec : Type 0 where
  pub prefix : Text
  pub grace_ms : ℕ

pub record SweepResult : Type 0 where
  pub acquired : Bool
  pub scanned : ℕ
  pub deleted : ℕ
  pub failed : ℕ
  pub skipped_no_timestamp : ℕ

-- What the service is built over. A MediaReferenceProvider reads its keys from the database, or
-- fails.
pub record CleanupPorts : Type 1 where
  pub redis : Server
  pub storage : StorageService
  pub Database : Type 0
  pub providers : List (Database → Result (List Text))
  pub prefixes : List MediaPrefixSpec

abbrev pub lock_key : Text
lock_key = codes "cron:media-cleanup:lock"

abbrev pub lock_ttl_seconds : ℕ
lock_ttl_seconds = 1800

abbrev pub empty_result : Bool → SweepResult
empty_result acquired = record {
  acquired = acquired;
  scanned = 0;
  deleted = 0;
  failed = 0;
  skipped_no_timestamp = 0;
}

-- `for (const key of keys) set.add(key)`, for a Set that is only asked `has`
abbrev pub add_all : List Text → List Text → List Text
add_all [] set = set
add_all (key ∷ keys) set = add_all keys (if has key set then set else key ∷ set)

abbrev pub is_older : Option ℕ → ℕ → Bool
is_older none cutoff = false
is_older (some t) cutoff = ltb t cutoff

abbrev lacks_time : Option ℕ → Bool
lacks_time none = true
lacks_time (some _) = false

-- The filter of the listing: what is deleted, and what is counted as skipped.
abbrev pub is_orphan : List Text → ℕ → StorageObjectInfo → Bool
is_orphan referenced cutoff o = not (has o.name referenced) && is_older o.time_created cutoff

abbrev pub is_skipped : List Text → StorageObjectInfo → Bool
is_skipped referenced o = not (has o.name referenced) && lacks_time o.time_created

-- `try { return m } finally { release }`, for a release that does not throw
abbrev finally : {W A : Type 0} → Action W A → (W → W) → Action W A
finally m release w = let (x, w') = m w in (x, release w')

module _ (p : CleanupPorts) where
  pub record World : Type 0 where
    pub store : p.redis.Store
    pub objects : p.storage.State
    pub database : p.Database

module _ (p : CleanupPorts) where
  abbrev pub Method : Type 0 → Type 0
  Method A = Action (World p) A

  abbrev on_storage : {A : Type 0} → Action p.storage.State A → Method A
  on_storage m w = let (x, objects) = m w.objects in (x, record w { objects = objects })

  abbrev pub collect_from : List (p.Database → Result (List Text)) → List Text → Method (List Text)
  collect_from [] set = pure set
  collect_from (provider ∷ providers) set =
      (λ w. (provider w.database, w)) >>= λ keys. collect_from providers (add_all keys set)

  unfoldable pub collect_referenced_keys : Method (List Text)
  collect_referenced_keys = collect_from p.providers []

  abbrev delete_one : StorageObjectInfo → SweepResult → Method SweepResult
  delete_one orphan c =
      try_catch
        (on_storage (p.storage.delete_object orphan.name)
          >> pure (record c { deleted = c.deleted + 1 }))
        (λ e. pure (record c { failed = c.failed + 1 }))

  unfoldable pub delete_all : List StorageObjectInfo → SweepResult → Method SweepResult
  delete_all [] c = pure c
  delete_all (orphan ∷ orphans) c = delete_one orphan c >>= λ c'. delete_all orphans c'

  abbrev sweep_listed :
      List Text → ℕ → MediaPrefixSpec → SweepResult → List StorageObjectInfo → Method SweepResult
  sweep_listed referenced now spec c list =
      delete_all (filter (is_orphan referenced (now - spec.grace_ms)) list) (record c {
        scanned = c.scanned + length list;
        skipped_no_timestamp =
            c.skipped_no_timestamp + length (filter (is_skipped referenced) list);
      })

  unfoldable pub sweep_prefix : List Text → ℕ → MediaPrefixSpec → SweepResult → Method SweepResult
  sweep_prefix referenced now spec c =
      on_storage (p.storage.list_objects spec.prefix) >>= sweep_listed referenced now spec c

  unfoldable pub sweep_all : List Text → ℕ → List MediaPrefixSpec → SweepResult → Method SweepResult
  unfolding sweep_prefix
  sweep_all referenced now [] c = pure c
  sweep_all referenced now (spec ∷ specs) c =
      sweep_prefix referenced now spec c >>= λ c'. sweep_all referenced now specs c'

  unfoldable pub run_sweep : ℕ → Method SweepResult
  unfolding collect_referenced_keys sweep_all
  run_sweep now = collect_referenced_keys >>= λ referenced.
      sweep_all referenced now p.prefixes (empty_result true)

  abbrev with_lock : ℕ → Option Text → Method SweepResult
  unfolding run_sweep Redis.release_lock
  with_lock now none = pure (empty_result false)
  with_lock now (some token) =
      finally (run_sweep now)
        (λ w. record w { store = Redis.release_lock p.redis lock_key token w.store })

  abbrev unless_dormant : List MediaPrefixSpec → Method SweepResult → Method SweepResult
  unless_dormant [] m = pure (empty_result false)
  unless_dormant (_ ∷ _) m = m

  -- `uuid` is the draw of the lock's token, `now` the value of `Date.now()`.
  unfoldable pub sweep_orphans : Text → ℕ → Method SweepResult
  unfolding with_lock Redis.acquire_lock
  sweep_orphans uuid now = unless_dormant p.prefixes (
      (λ w.
        let (token, store) = Redis.acquire_lock p.redis uuid lock_key lock_ttl_seconds w.store in
        with_lock now token (record w { store = store })))
