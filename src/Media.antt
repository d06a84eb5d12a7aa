-- ===== src/Media.antt =====
-- src/modules/platform/media: the types of interfaces/asset.types.ts, the row of
-- src/modules/shared/database/schema/media-asset.schema.ts, media-asset.repository.ts and
-- queue/media-processing-queue.service.ts.
mod Tests
pub mod Keys
pub mod Processing
pub mod Assets
use nestjs_boilerplate.Base.{
  ℕ, ◌+◌, ◌==◌, ltb, ◌&&◌, ◌||◌, Bool, true, false, Option, none, some, List, [], ◌∷◌, ◌++◌, head?,
  any, Text, text_eq, codes, if◌then◌else◌, or_default, Result, ok, err, failure, Action, pure,
  throw, gets, or_throw, modify, ◌>>=◌, ◌>>◌,
}
use nestjs_boilerplate.Shared.Otp.{to_string}
use nestjs_boilerplate.Shared.Table.{Table}
use nestjs_boilerplate.Storage.{StorageService}

pub record MediaAsset : Type 0 where
  pub id : ℕ
  pub storage_key : Text
  pub original_filename : Text
  pub mime_type : Text
  pub size : ℕ
  pub entity_type : Text
  pub entity_id : Option Text
  pub entity_subtype : Option Text
  pub tags : List Text
  pub uploaded_by : Option ℕ
  pub thumbnail_key : Option Text
  pub medium_key : Option Text
  pub attached_at : Option ℕ
  pub processed_at : Option ℕ
  pub created_at : ℕ
  pub updated_at : ℕ

pub record NewMediaAsset : Type 0 where
  pub storage_key : Text
  pub original_filename : Text
  pub mime_type : Text
  pub size : ℕ
  pub entity_type : Text
  pub entity_id : Option Text
  pub entity_subtype : Option Text
  pub tags : List Text
  pub uploaded_by : Option ℕ
  pub attached_at : Option ℕ

pub record PresignUploadParams : Type 0 where
  pub filename : Text
  pub mime_type : Text
  pub file_size : ℕ
  pub uploader_id : ℕ
  pub tags : Option (List Text)
  pub entity_type : Option Text
  pub entity_id : Option Text
  pub entity_subtype : Option Text

pub record PresignUploadResult : Type 0 where
  pub asset_id : ℕ
  pub storage_key : Text
  pub upload_url : Text
  pub preview_url : Text
  pub expires_in : ℕ
  pub cache_control : Text
  pub max_file_size : ℕ

pub record RegisterAssetParams : Type 0 where
  pub storage_key : Text
  pub original_filename : Text
  pub mime_type : Text
  pub size : ℕ
  pub uploader_id : Option ℕ
  pub tags : Option (List Text)
  pub entity_type : Option Text
  pub entity_id : Option Text
  pub entity_subtype : Option Text

pub record MediaAssetUrls : Type 0 where
  pub original : Option Text
  pub medium : Option Text
  pub thumbnail : Option Text

pub record MediaAssetView : Type 0 where
  pub id : ℕ
  pub storage_key : Text
  pub original_filename : Text
  pub mime_type : Text
  pub size : ℕ
  pub entity_type : Text
  pub entity_id : Option Text
  pub entity_subtype : Option Text
  pub tags : List Text
  pub uploaded_by : Option ℕ
  pub attached_at : Option ℕ
  pub processed_at : Option ℕ
  pub created_at : ℕ
  pub updated_at : ℕ
  pub preview_url : Option Text
  pub urls : MediaAssetUrls

abbrev pub media_mime_image : List Text
media_mime_image =
    codes "image/jpeg" ∷ codes "image/png" ∷ codes "image/webp" ∷ codes "image/gif" ∷ []

abbrev pub media_mime_video : List Text
media_mime_video = codes "video/mp4" ∷ codes "video/webm" ∷ codes "video/quicktime" ∷ []

abbrev pub media_max_image_bytes : ℕ
media_max_image_bytes = 10485760

abbrev pub media_max_video_bytes : ℕ
media_max_video_bytes = 209715200

abbrev pub library_entity_type : Text
library_entity_type = codes "library"

-- A job of the media-processing queue, as it is handed to the queue.
pub record QueuedJob : Type 0 where
  pub job_id : Text
  pub asset_id : ℕ
  pub attempts : ℕ
  pub backoff_ms : ℕ

-- What the media services are built over: the port of the storage, the table, the random source,
-- the two renderings of the optional package `sharp` (`none` where it is not installed), the
-- mapping of `toLowerCase` outside ASCII, and the settings.
pub data Variant : Type 0 where
  thumb medium : Variant

-- interfaces/asset-port.interface.ts: the port that other modules use.
pub record AssetPort : Type 1 where
  pub State : Type 0
  pub presign_upload : PresignUploadParams → Action State PresignUploadResult
  pub register_asset : RegisterAssetParams → Action State MediaAssetView
  pub list_by_entity : Text → Text → Action State (List MediaAssetView)

pub record MediaPorts : Type 1 where
  pub storage : StorageService
  pub table : Table MediaAsset NewMediaAsset
  pub random_uuid : ℕ → Text
  pub sharp : Option (Variant → List ℕ → Result (List ℕ))
  pub wide : Text → Text
  pub presign_expires : Option ℕ
  pub queue_attempts : Option ℕ
  pub queue_backoff_ms : Option ℕ

module _ (p : MediaPorts) where
  pub record World : Type 0 where
    pub db : p.table.Db
    pub objects : p.storage.State
    pub queue : List QueuedJob
    -- grows with each random draw and each reading of the clock
    pub moment : ℕ

-- `eq(column, value)` on a column that may be null
abbrev pub column_is : Option Text → Text → Bool
column_is none value = false
column_is (some v) value = text_eq v value

abbrev pub is_bound_to : Text → Text → MediaAsset → Bool
is_bound_to entity_type entity_id a =
    text_eq a.entity_type entity_type && column_is a.entity_id entity_id

-- `orderBy(desc(createdAt), desc(id))`
abbrev pub is_newer : MediaAsset → MediaAsset → Bool
is_newer a b = ltb b.created_at a.created_at || (a.created_at == b.created_at && ltb b.id a.id)

abbrev pub insert_newest : MediaAsset → List MediaAsset → List MediaAsset
insert_newest a [] = a ∷ []
insert_newest a (b ∷ bs) = if is_newer b a then b ∷ insert_newest a bs else a ∷ b ∷ bs

abbrev pub newest_first : List MediaAsset → List MediaAsset
newest_first [] = []
newest_first (a ∷ bs) = insert_newest a (newest_first bs)

module _ (p : MediaPorts) where
  abbrev pub Method : Type 0 → Type 0
  Method A = Action (World p) A

  abbrev pub on_storage : {A : Type 0} → Action p.storage.State A → Method A
  on_storage m w = let (x, objects) = m w.objects in (x, record w { objects = objects })

  -- A reading of the clock.
  abbrev pub now : Method ℕ
  now w = (ok w.moment, record w { moment = w.moment + 1 })

  -- class MediaAssetRepository
  abbrev pub created : Option (List MediaAsset × p.table.Db) → Method MediaAsset
  created none w = throw (failure "insert refused") w
  created (some (rows, db)) w =
      or_throw (head? rows) (failure "Failed to insert media asset row") (record w { db = db })

  unfoldable pub create : NewMediaAsset → Method MediaAsset
  create new w = created (p.table.insert (new ∷ []) w.db) w

  unfoldable pub find_by_id : ℕ → Method (Option MediaAsset)
  find_by_id id = gets (λ w. head? (p.table.select_where (λ a. a.id == id) w.db))

  unfoldable pub find_by_entity : Text → Text → Method (List MediaAsset)
  find_by_entity entity_type entity_id =
      gets (λ w. newest_first (p.table.select_where (is_bound_to entity_type entity_id) w.db))

  -- A patch is a change of the row; `updatedAt` is set as well.
  unfoldable pub update : ℕ → (MediaAsset → MediaAsset) → Method (Option MediaAsset)
  update id patch w =
      let touch = λ (a : MediaAsset). record (patch a) { updated_at = w.moment } in
      let (rows, db) = p.table.update_where (λ a. a.id == id) touch w.db in
      (ok (head? rows), record w { db = db; moment = w.moment + 1 })

  -- MediaProcessingQueueService.enqueue
  unfoldable pub enqueue : ℕ → Method (Unit {0})
  unfolding to_string
  enqueue asset_id = modify (λ w. record w {
    queue =
        w.queue
        ++ record {
          job_id = codes "media:" ++ to_string asset_id;
          asset_id = asset_id;
          attempts = or_default p.queue_attempts 3;
          backoff_ms = or_default p.queue_backoff_ms 1000;
        }
          ∷ [];
  })
