-- ===== src/Storage/Cleanup/Safety.antt =====
-- What the sweep does not delete.
use nestjs_boilerplate.Base.{
  ℕ, ◌+◌, ◌-◌, ◌≡◌, refl, ap, sym, ◌∙◌, ltb, ◌||◌, Bool, true, false, not, Option, some, List, [],
  ◌∷◌, filter, all, any, All, has, Text, text_eq, text_eq→eq, Result, ok, err, if◌then◌else◌, arith,
  list-cases, bind_keeps, catch_keeps, length, pure, ◌>>◌, Result-cases, Option-cases, Bool-cases,
  inl, inr,
}
use nestjs_boilerplate.Storage.{StorageLaws, StorageObjectInfo}
use nestjs_boilerplate.Storage.Cleanup.{
  lock_key, lock_ttl_seconds, empty_result, CleanupPorts, World, on_storage, delete_one, is_skipped,
  sweep_listed, MediaPrefixSpec, SweepResult, is_orphan, add_all, delete_all, sweep_prefix,
  sweep_all, run_sweep, sweep_orphans, collect_from, collect_referenced_keys,
}

abbrev reply_has : Text → Result (List Text) → Bool
reply_has key (ok keys) = has key keys
reply_has key (err e) = false

-- Some provider reports the key.
abbrev pub is_referenced : (p : CleanupPorts) → Text → p.Database → Bool
is_referenced p key db = any (λ provider. reply_has key (provider db)) p.providers

abbrev spares : ℕ → Option (Option ℕ) → Bool
spares cutoff (some (some t)) = not (ltb t cutoff)
spares cutoff _ = true

-- The object is absent, has no time, or is not older than the grace window of any prefix.
abbrev pub is_recent : ℕ → List MediaPrefixSpec → Option (Option ℕ) → Bool
is_recent now specs created = all (λ spec. spares (now - spec.grace_ms) created) specs

has-add_all :
    (key : Text) (keys set : List Text) → has key (add_all keys set) ≡ (has key keys || has key set)
has-add_all key [] set = refl
has-add_all key (k ∷ keys) set =
    let rest = has-add_all key keys (if has k set then set else k ∷ set) in
    elim (Bool-cases (text_eq key k)) [
      | inl same ↦
          let e = text_eq→eq key k same in
          elim (Bool-cases (has k set)) [
            | inl old ↦
                let held : has key set ≡ true = ap (λ (x : Text). has x set) e ∙ old in
                ground (arith, rest, same, old, held)
            | inr new ↦ ground (arith, rest, same, new)
          ]
      | inr other ↦ elim (Bool-cases (has k set)) [
        | inl old ↦ ground (arith, rest, other, old)
        | inr new ↦ ground (arith, rest, other, new)
      ]
    ]

module _ (p : CleanupPorts) (laws : StorageLaws p.storage) (key : Text) where
  abbrev stored : World p → Option (Option ℕ)
  stored w = laws.created key w.objects

  delete_all_other :
      (orphans : List StorageObjectInfo) (c : SweepResult) (w : World p)
      → All (λ (o : StorageObjectInfo). text_eq o.name key ≡ false) orphans
      → stored (delete_all p orphans c w).1 ≡ stored w
  unfolding delete_all
  delete_all_other [] c w apart = refl
  delete_all_other (o ∷ orphans) c w (other, apart) =
      let one =
        catch_keeps stored
          (on_storage p (p.storage.delete_object o.name)
            >> pure (record c { deleted = c.deleted + 1 }))
          (λ e. pure (record c { failed = c.failed + 1 })) w
          (bind_keeps stored (on_storage p (p.storage.delete_object o.name))
            (λ _. pure (record c { deleted = c.deleted + 1 })) w
            (laws.delete_other o.name key w.objects other) (λ _ _. refl))
          (λ e w'. refl) in
      bind_keeps stored (delete_one p o c) (λ c'. delete_all p orphans c') w one
        (λ c' _. delete_all_other orphans c' (delete_one p o c w).1 apart)

  not_orphan :
      (referenced : List Text) (cutoff : ℕ) (o : StorageObjectInfo) (created : Option (Option ℕ))
      → (text_eq o.name key ≡ true → created ≡ some o.time_created)
      → (has key referenced || spares cutoff created) ≡ true
      → is_orphan referenced cutoff o ≡ true
      → text_eq o.name key ≡ false
  not_orphan referenced cutoff o created reported guard orphan =
      elim (Bool-cases (text_eq o.name key)) [
        | inl same ↦
            let e = text_eq→eq o.name key same in
            let found : has key referenced ≡ false =
              ap (λ (x : Text). has x referenced) (sym e) ∙ ground (arith, orphan) in
            let known = reported same in
            elim (Option-cases o.time_created) [
              | inl nan ↦ ground (arith, nan, orphan)
              | inr (t, at) ↦ ground (arith, at, known, guard, found, orphan)
            ]
        | inr other ↦ other
      ]

  listed_orphans :
      (referenced : List Text) (cutoff : ℕ) (st : p.storage.State) (list : List StorageObjectInfo)
      → All (λ (o : StorageObjectInfo). laws.created o.name st ≡ some o.time_created) list
      → (has key referenced || spares cutoff (laws.created key st)) ≡ true
      → All
          (λ (o : StorageObjectInfo). text_eq o.name key ≡ false)
          (filter (is_orphan referenced cutoff) list)
  listed_orphans referenced cutoff st [] sound guard = tt
  listed_orphans referenced cutoff st (o ∷ list) (here, sound) guard =
      let rest = listed_orphans referenced cutoff st list sound guard in
      let at_key = λ (same : text_eq o.name key ≡ true).
        ap (λ (x : Text). laws.created x st) (sym (text_eq→eq o.name key same)) ∙ here in
      elim (Bool-cases (is_orphan referenced cutoff o)) [
        | inl orphan ↦
            rw orphan
              (not_orphan referenced cutoff o (laws.created key st) at_key guard orphan, rest)
        | inr kept ↦ rw kept rest
      ]

  sweep_prefix_keeps :
      (referenced : List Text) (now : ℕ) (spec : MediaPrefixSpec) (c : SweepResult) (w : World p)
      → (has key referenced || spares (now - spec.grace_ms) (stored w)) ≡ true
      → stored (sweep_prefix p referenced now spec c w).1 ≡ stored w
  unfolding sweep_prefix
  sweep_prefix_keeps referenced now spec c w guard =
      bind_keeps stored (on_storage p (p.storage.list_objects spec.prefix))
        (sweep_listed p referenced now spec c) w (laws.created-list spec.prefix key w.objects)
        (λ list found.
          let sound = laws.list_sound spec.prefix w.objects list found in
          delete_all_other (filter (is_orphan referenced (now - spec.grace_ms)) list)
            (record c {
              scanned = c.scanned + length list;
              skipped_no_timestamp =
                  c.skipped_no_timestamp + length (filter (is_skipped referenced) list);
            })
            (on_storage p (p.storage.list_objects spec.prefix) w).1
            (listed_orphans referenced (now - spec.grace_ms) w.objects list sound guard))

  sweep_all_keeps :
      (referenced : List Text) (now : ℕ) (specs : List MediaPrefixSpec) (c : SweepResult)
      (w : World p)
      → (has key referenced || is_recent now specs (stored w)) ≡ true
      → stored (sweep_all p referenced now specs c w).1 ≡ stored w
  unfolding sweep_all
  sweep_all_keeps referenced now [] c w guard = refl
  sweep_all_keeps referenced now (spec ∷ specs) c w guard =
      let first = sweep_prefix_keeps referenced now spec c w (ground (arith, guard)) in
      let others : (has key referenced || is_recent now specs (stored w)) ≡ true =
        ground (arith, guard) in
      bind_keeps stored (sweep_prefix p referenced now spec c)
        (λ c'. sweep_all p referenced now specs c') w first
        (λ c' _.
          sweep_all_keeps referenced now specs c' (sweep_prefix p referenced now spec c w).1 (
            ap (λ (x : Option (Option ℕ)). has key referenced || is_recent now specs x) first
            ∙ others))

  collect_from_keeps :
      (providers : List (p.Database → Result (List Text))) (set : List Text) (w : World p)
      → (collect_from p providers set w).1 ≡ w
  collect_from_keeps [] set w = refl
  collect_from_keeps (provider ∷ providers) set w =
      bind_keeps (λ (v : World p). v) (λ v. (provider v.database, v))
        (λ keys. collect_from p providers (add_all keys set)) w refl
        (λ keys _. collect_from_keeps providers (add_all keys set) w)

  has-collect_from :
      (providers : List (p.Database → Result (List Text))) (set found : List Text) (w : World p)
      → (collect_from p providers set w).0 ≡ ok found
      → has key found
        ≡ (has key set || any (λ provider. reply_has key (provider w.database)) providers)
  has-collect_from [] set found w done = ground (arith, done)
  has-collect_from (provider ∷ providers) set found w done =
      elim (Result-cases (provider w.database)) [
        | inl (keys, read) ↦
            let rest =
              has-collect_from providers (add_all keys set) found w (ground (arith, read, done)) in
            ground (arith, read, rest, has-add_all key keys set)
        | inr (e, failed) ↦ ground (arith, failed, done)
      ]

  run_sweep_keeps :
      (now : ℕ) (w : World p)
      → (is_referenced p key w.database || is_recent now p.prefixes (stored w)) ≡ true
      → stored (run_sweep p now w).1 ≡ stored w
  unfolding run_sweep collect_referenced_keys
  run_sweep_keeps now w guard =
      let same = collect_from_keeps p.providers [] w in
      bind_keeps stored (collect_referenced_keys p)
        (λ referenced. sweep_all p referenced now p.prefixes (empty_result true)) w (ap stored same)
        (λ referenced done.
          let known = has-collect_from p.providers [] referenced w done in
          sweep_all_keeps referenced now p.prefixes (empty_result true)
            (collect_referenced_keys p w).1 (rw same (ground (arith, known, guard))))

  -- However a sweep ends, it leaves an object that some provider reports, that has no time of
  -- creation, or that is not older than the grace window of any configured prefix.
  pub sweep_orphans_keeps :
      (uuid : Text) (now : ℕ) (w : World p)
      → (is_referenced p key w.database || is_recent now p.prefixes (laws.created key w.objects))
        ≡ true
      → laws.created key (sweep_orphans p uuid now w).1.objects ≡ laws.created key w.objects
  unfolding sweep_orphans
  sweep_orphans_keeps uuid now w guard =
      let store = (p.redis.set_ex_nx lock_key uuid lock_ttl_seconds w.store).1 in
      let swept = run_sweep_keeps now (record w { store = store }) guard in
      elim (list-cases p.prefixes) [
        | inl dormant ↦ ground (arith, dormant)
        | inr (spec, specs, some_prefix) ↦
            elim (Bool-cases (p.redis.set_ex_nx lock_key uuid lock_ttl_seconds w.store).0) [
              | inl set ↦ ground (arith, some_prefix, set, swept)
              | inr held ↦ ground (arith, some_prefix, held)
            ]
      ]
