-- ===== src/Storage/Cleanup/Locked.antt =====
-- The sweep runs under the fencing lock of src/modules/shared/redis/redis.service.ts.
use nestjs_boilerplate.Base.{
  ℕ, ◌+◌, ◌≡◌, ◌≢◌, refl, true, false, none, some, List, [], ◌∷◌, Text, text_eq_refl, ok, arith,
  list-cases, inl, inr, bind_keeps, Option, Option-cases, filter, length, ◌-◌, Result, catch_keeps,
  pure, ◌>>◌,
}
use nestjs_boilerplate.Shared.Redis.{Laws}
use nestjs_boilerplate.Storage.{StorageObjectInfo}
use nestjs_boilerplate.Storage.Cleanup.{
  CleanupPorts, World, MediaPrefixSpec, SweepResult, lock_key, lock_ttl_seconds, empty_result,
  on_storage, delete_one, delete_all, sweep_prefix, sweep_all, run_sweep, sweep_orphans,
  sweep_listed, is_orphan, is_skipped, collect_from, collect_referenced_keys, add_all,
}

abbrev pub if_free : {A : Type 0} → Option Text → A → A → A
if_free none free held = free
if_free (some _) free held = held

module _ (p : CleanupPorts) where
  -- The sweep itself sends no command to Redis.
  delete_all_store :
      (orphans : List StorageObjectInfo) (c : SweepResult) (w : World p)
      → (delete_all p orphans c w).1.store ≡ w.store
  unfolding delete_all
  delete_all_store [] c w = refl
  delete_all_store (o ∷ orphans) c w =
      let one =
        catch_keeps (λ (v : World p). v.store)
          (on_storage p (p.storage.delete_object o.name)
            >> pure (record c { deleted = c.deleted + 1 }))
          (λ e. pure (record c { failed = c.failed + 1 })) w
          (bind_keeps (λ (v : World p). v.store) (on_storage p (p.storage.delete_object o.name))
            (λ _. pure (record c { deleted = c.deleted + 1 })) w refl (λ _ _. refl))
          (λ e w'. refl) in
      bind_keeps (λ (v : World p). v.store) (delete_one p o c) (λ c'. delete_all p orphans c') w one
        (λ c' _. delete_all_store orphans c' (delete_one p o c w).1)

  sweep_all_store :
      (referenced : List Text) (now : ℕ) (specs : List MediaPrefixSpec) (c : SweepResult)
      (w : World p)
      → (sweep_all p referenced now specs c w).1.store ≡ w.store
  unfolding sweep_all sweep_prefix
  sweep_all_store referenced now [] c w = refl
  sweep_all_store referenced now (spec ∷ specs) c w =
      bind_keeps (λ (v : World p). v.store) (sweep_prefix p referenced now spec c)
        (λ c'. sweep_all p referenced now specs c') w
        (bind_keeps (λ (v : World p). v.store) (on_storage p (p.storage.list_objects spec.prefix))
          (sweep_listed p referenced now spec c) w refl
          (λ list _.
            delete_all_store (filter (is_orphan referenced (now - spec.grace_ms)) list)
              (record c {
                scanned = c.scanned + length list;
                skipped_no_timestamp =
                    c.skipped_no_timestamp + length (filter (is_skipped referenced) list);
              })
              (on_storage p (p.storage.list_objects spec.prefix) w).1))
        (λ c' _. sweep_all_store referenced now specs c' (sweep_prefix p referenced now spec c w).1)

  collect_from_store :
      (providers : List (p.Database → Result (List Text))) (set : List Text) (w : World p)
      → (collect_from p providers set w).1.store ≡ w.store
  collect_from_store [] set w = refl
  collect_from_store (provider ∷ providers) set w =
      bind_keeps (λ (v : World p). v.store) (λ v. (provider v.database, v))
        (λ keys. collect_from p providers (add_all keys set)) w refl
        (λ keys _. collect_from_store providers (add_all keys set) w)

  run_sweep_store : (now : ℕ) (w : World p) → (run_sweep p now w).1.store ≡ w.store
  unfolding run_sweep collect_referenced_keys
  run_sweep_store now w =
      bind_keeps (λ (v : World p). v.store) (collect_referenced_keys p)
        (λ referenced. sweep_all p referenced now p.prefixes (empty_result true)) w
        (collect_from_store p.providers [] w)
        (λ referenced _.
          sweep_all_store referenced now p.prefixes (empty_result true)
            (collect_referenced_keys p w).1)

  -- With a prefix configured: from a free lock the sweep runs and, however it ends, an exception of
  -- a provider or of a listing included, the lock is free again. Where another replica holds the
  -- lock, nothing is read or deleted, the answer says so, and the lock stays with its holder.
  pub sweep_orphans_lock :
      (laws : Laws p.redis) (uuid : Text) (now : ℕ) (w : World p)
      → p.prefixes ≢ []
      → let w' = record w {
        store = (p.redis.set_ex_nx lock_key uuid lock_ttl_seconds w.store).1;
      } in
        let lock = p.redis.get lock_key w.store in
        ((sweep_orphans p uuid now w).0
          ≡ if_free lock (run_sweep p now w').0 (ok (empty_result false)))
        × ((sweep_orphans p uuid now w).1.objects
            ≡ if_free lock (run_sweep p now w').1.objects w.objects)
        × (p.redis.get lock_key (sweep_orphans p uuid now w).1.store ≡ lock)
  unfolding sweep_orphans
  sweep_orphans_lock laws uuid now w configured =
      let w' = record w { store = (p.redis.set_ex_nx lock_key uuid lock_ttl_seconds w.store).1 } in
      let swept = run_sweep_store now w' in
      let kept = laws.get-set_ex_nx lock_key lock_key uuid lock_ttl_seconds w.store in
      let same = text_eq_refl lock_key in
      let own = text_eq_refl uuid in
      let released =
        laws.get-compare_and_delete lock_key lock_key uuid (run_sweep p now w').1.store in
      elim (list-cases p.prefixes) [
        | inl dormant ↦ elim (configured dormant) [ ]
        | inr (spec, specs, some_prefix) ↦ elim (Option-cases (p.redis.get lock_key w.store)) [
          | inl free ↦
              let set = laws.set_ex_nx_free lock_key uuid lock_ttl_seconds w.store free in
              (
                ground (arith, some_prefix, set, free),
                ground (arith, some_prefix, set, free),
                ground (arith, some_prefix, set, free, swept, kept, same, own, released),
              )
          | inr (holder, held) ↦
              let set = laws.set_ex_nx_held lock_key uuid holder lock_ttl_seconds w.store held in
              (
                ground (arith, some_prefix, set, held),
                ground (arith, some_prefix, set, held),
                ground (arith, some_prefix, set, held, kept, same),
              )
        ]
      ]
