-- ===== src/Storage/Tests.antt =====
-- Runs of the storage services on concrete inputs.
use nestjs_boilerplate.Base.{
  suc, is_ok, answer, ℕ, ◌≡◌, refl, Bool, true, false, Option, none, some, List, [], ◌∷◌, ◌++◌, map,
  All, has, lookup, Text, text_eq, codes, Result, ok, err, failure, arith, Bool-cases, inl, inr,
  text_eq→eq, ap, ◌∙◌, subst, if◌then◌else◌,
}
use nestjs_boilerplate.Shared.Redis.Memory.{memory, memory-Laws, empty}
use nestjs_boilerplate.Storage.{StorageService, StorageObjectInfo, StorageLaws}
use nestjs_boilerplate.Storage.Filename.{sanitize_filename}
use nestjs_boilerplate.Storage.Filename.Segment.{IsSegment, sanitize_filename-IsSegment}
use nestjs_boilerplate.Storage.Cleanup.{
  CleanupPorts, World, lock_key, lock_ttl_seconds, run_sweep, delete_all, sweep_orphans,
}
use nestjs_boilerplate.Storage.Cleanup.Safety.{sweep_orphans_keeps}
use nestjs_boilerplate.Storage.Cleanup.Locked.{sweep_orphans_lock}
use nestjs_boilerplate.Storage.Gcs.{
  GcsPorts, SignedUrlConfig, bucket, gcs_storage_service, is_transient_signing_error,
}
use nestjs_boilerplate.Storage.Gcs.Contract.{gcs_storage_service-SignsAlike}
use nestjs_boilerplate.Storage.Gcs
use nestjs_boilerplate.Storage.Cached
use nestjs_boilerplate.Storage.Cached.{CachedPorts, presign_read, presign_read_many}
use nestjs_boilerplate.Storage.Cached.Agreement.{for_key, entries, presign_read_many_lem}

-- A bucket with at most two objects: one of time 0, one of time 50.
abbrev old : Text
old = codes "uploads/old"

abbrev young : Text
young = codes "uploads/young"

abbrev Objects : Type 0
Objects = Bool × Bool

abbrev created : Text → Objects → Option (Option ℕ)
created key (has_old, has_young) =
    if text_eq old key
    then (if has_old then some (some 0) else none)
    else if text_eq young key
    then (if has_young then some (some 50) else none)
    else none

abbrev listing : Objects → List StorageObjectInfo
listing (has_old, has_young) =
    (if has_old then record { name = old; time_created = some 0 } ∷ [] else [])
    ++ (if has_young then record { name = young; time_created = some 50 } ∷ [] else [])

abbrev deleted : Text → Objects → Objects
deleted name (has_old, has_young) =
    (if text_eq name old then false else has_old, if text_eq name young then false else has_young)

abbrev shelf : StorageService
shelf = record {
  State = Objects;
  presign_upload = λ params st. (ok params.key, st);
  presign_read = λ params st. (ok params.key, st);
  presign_read_many = λ keys expires_in st. (ok (map (λ k. (k, k)) keys), st);
  object_exists = λ key st. (ok false, st);
  list_objects = λ prefix st. (ok (listing st), st);
  delete_object = λ name st. (ok tt, deleted name st);
  copy_object = λ src_key dest_key st. (ok tt, st);
  download_object = λ key st. (err (failure "not found"), st);
  upload_object = λ key body content_type cache_control st. (ok tt, st);
}

listing_sound :
    (st : Objects)
    → All (λ (o : StorageObjectInfo). created o.name st ≡ some o.time_created) (listing st)
unfolding text_eq
listing_sound (true, true) = (refl, (refl, tt))
listing_sound (true, false) = (refl, tt)
listing_sound (false, true) = (refl, tt)
listing_sound (false, false) = tt

reply_sound :
    (st : Objects) (list : List StorageObjectInfo)
    → ok (listing st) ≡ ok list
    → All (λ (o : StorageObjectInfo). created o.name st ≡ some o.time_created) list
reply_sound st list found =
    let same : listing st ≡ list = ground (arith, found) in
    subst (All (λ (o : StorageObjectInfo). created o.name st ≡ some o.time_created)) same
      (listing_sound st)

deleted_other :
    (name key : Text) (st : Objects)
    → text_eq name key ≡ false
    → created key (deleted name st) ≡ created key st
deleted_other name key st other = elim (Bool-cases (text_eq old key)) [
  | inl is_old ↦
      let apart : text_eq name old ≡ false =
        ap (λ (k : Text). text_eq name k) (text_eq→eq old key is_old) ∙ other in
      ground (arith, is_old, apart)
  | inr not_old ↦ elim (Bool-cases (text_eq young key)) [
    | inl is_young ↦
        let apart : text_eq name young ≡ false =
          ap (λ (k : Text). text_eq name k) (text_eq→eq young key is_young) ∙ other in
        ground (arith, not_old, is_young, apart)
    | inr not_young ↦ ground (arith, not_old, not_young)
  ]
]

abbrev shelf-StorageLaws : StorageLaws shelf
shelf-StorageLaws = record {
  created = created;
  created-list = λ prefix key st. refl;
  list_sound = λ prefix st list found. reply_sound st list found;
  delete_other = deleted_other;
}

abbrev sweeper : CleanupPorts
sweeper = record {
  redis = memory;
  storage = shelf;
  Database = List Text;
  providers = ok ∷ [];
  prefixes = record { prefix = codes "uploads/"; grace_ms = 60 } ∷ [];
}

abbrev before : World sweeper
before = record { store = empty; objects = (true, true); database = codes "avatars/1" ∷ [] }

abbrev uuid : Text
uuid = codes "u1"

-- The old object goes, the young one stays.
sweep_test :
    let swept = sweep_orphans sweeper uuid 100 before in
    (swept.0
      ≡ ok (record {
        acquired = true;
        scanned = 2;
        deleted = 1;
        failed = 0;
        skipped_no_timestamp = 0;
      }))
    × (swept.1.objects ≡ (false, true))
unfolding sweep_orphans text_eq delete_all
sweep_test = (refl, refl)

sweep_orphans_keeps_example :
    created young (sweep_orphans sweeper uuid 100 before).1.objects ≡ some (some 50)
unfolding text_eq
sweep_orphans_keeps_example =
    sweep_orphans_keeps sweeper shelf-StorageLaws young uuid 100 before refl

sweep_orphans_lock_example :
    let w' = record before { store = (memory.set_ex_nx lock_key uuid lock_ttl_seconds empty).1 } in
    ((sweep_orphans sweeper uuid 100 before).0 ≡ (run_sweep sweeper 100 w').0)
    × ((sweep_orphans sweeper uuid 100 before).1.objects ≡ (run_sweep sweeper 100 w').1.objects)
    × (memory.get lock_key (sweep_orphans sweeper uuid 100 before).1.store ≡ none)
sweep_orphans_lock_example =
    sweep_orphans_lock sweeper memory-Laws uuid 100 before (λ e. ground (arith, e))

sanitize_test : sanitize_filename (codes " ../up/my photo.png ") ≡ ok (codes "my-photo.png")
unfolding sanitize_filename
sanitize_test = refl

sanitize_filename-IsSegment_example : IsSegment (codes "my-photo.png")
sanitize_filename-IsSegment_example =
    sanitize_filename-IsSegment (codes " ../up/my photo.png ") (codes "my-photo.png") sanitize_test

-- A bucket whose signature of a key is its name; the key `lost` cannot be signed.
abbrev sign : SignedUrlConfig → Result Text
sign config =
    if text_eq config.key (codes "lost")
    then err (failure "denied")
    else ok (codes "/" ++ config.key)

abbrev gcs : GcsPorts
gcs = record {
  State = Unit;
  get_signed_url = λ config st. (sign config, st);
  exists = λ key st. (ok true, st);
  get_files = λ prefix st. (ok [], st);
  delete = λ key st. (ok tt, st);
  copy = λ src_key dest_key st. (ok tt, st);
  download = λ key st. (ok [], st);
  save = λ key body content_type cache_control st. (ok tt, st);
  now = λ st. 0;
  wait = λ ms st. st;
  date_parse = λ raw. none;
  wide = λ s. s;
  bucket_name = some (codes "media");
  presign_expires = none;
}

-- A client whose URLs say when they end, over a clock that goes on with every signature.
abbrev ticking : GcsPorts
ticking = record {
  State = ℕ;
  get_signed_url = λ config st. (
    if text_eq config.key (codes "lost")
        then err (failure "denied")
        else ok (config.expires ∷ config.key),
    suc st,
  );
  exists = λ key st. (ok true, st);
  get_files = λ prefix st. (ok [], st);
  delete = λ key st. (ok tt, st);
  copy = λ src_key dest_key st. (ok tt, st);
  download = λ key st. (ok [], st);
  save = λ key body content_type cache_control st. (ok tt, st);
  now = λ st. st;
  wait = λ ms st. suc st;
  date_parse = λ raw. none;
  wide = λ s. s;
  bucket_name = some (codes "media");
  presign_expires = none;
}

abbrev wanted : List Text
wanted = codes "lost" ∷ codes "a" ∷ codes "lost" ∷ codes "b" ∷ []

abbrev cache : CachedPorts
cache = record { redis = memory; inner = gcs_storage_service gcs; presign_expires = none }

abbrev cold : Cached.World cache
unfolding gcs_storage_service
cold = record { store = empty; objects = tt }

presign_read_many_lem_example :
    let keys = codes "a" ∷ codes "lost" ∷ codes "a" ∷ [] in
    (is_ok (presign_read_many cache keys none cold).0 ≡ true)
    × (lookup (codes "a") (entries (presign_read_many cache keys none cold).0) ≡ (
        if has (codes "a") keys
        then answer (presign_read cache (for_key (codes "a") none) cold).0
        else none))
presign_read_many_lem_example =
    presign_read_many_lem cache (gcs_storage_service-SignsAlike gcs (λ params st st'. refl))
      (codes "a" ∷ codes "lost" ∷ codes "a" ∷ []) none (codes "a") cold

presign_read_many_test :
    (presign_read_many cache (codes "a" ∷ codes "lost" ∷ codes "a" ∷ []) none cold).0
    ≡ ok ((codes "a", codes "/a") ∷ [])
unfolding presign_read_many gcs_storage_service text_eq bucket is_transient_signing_error
presign_read_many_test = refl
