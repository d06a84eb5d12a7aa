-- ===== src/Media/Assets.antt =====
-- src/modules/platform/media/services/media-asset.service.ts.
use nestjs_boilerplate.Base.{
  ℕ, ◌+◌, ltb, leb, ◌&&◌, ◌||◌, ◌==◌, Bool, true, false, Option, none, some, List, [], ◌∷◌, ◌++◌,
  map, take, has, lookup, or_default, Text, text_eq, codes, if◌then◌else◌, Result, ok, domain, pure,
  throw_if, or_throw, ◌>>=◌, ◌>>◌,
}
use mathlib.Core.List.{reverse}
use nestjs_boilerplate.Auth.Normalize.{to_lower_case}
use nestjs_boilerplate.Shared.Otp.{to_string}
use nestjs_boilerplate.Storage.Filename.{sanitize_filename}
use nestjs_boilerplate.Media.{
  MediaPorts, World, AssetPort, Method, MediaAsset, NewMediaAsset, PresignUploadParams,
  PresignUploadResult, RegisterAssetParams, MediaAssetView, media_mime_video, media_max_image_bytes,
  media_max_video_bytes, library_entity_type, on_storage, now, create, find_by_id, find_by_entity,
  enqueue,
}

abbrev pub preview_ttl_seconds : ℕ
preview_ttl_seconds = 3600

abbrev pub is_video : Text → Bool
is_video mime_type = has mime_type media_mime_video

abbrev pub max_file_size_for : Text → ℕ
max_file_size_for mime_type =
    if is_video mime_type then media_max_video_bytes else media_max_image_bytes

abbrev pub cache_control_for : Text → Text
cache_control_for mime_type =
    if is_video mime_type
    then codes "public, max-age=2592000"
    else codes "public, max-age=31536000, immutable"

abbrev pub is_token : ℕ → Bool
is_token c = (leb b'a' c && leb c b'z') || (leb b'0' c && leb c b'9')

-- `s.replace(/[^a-z0-9]+/g, '-')`; the flag says that a dash was written for the run.
abbrev pub dash_runs : Bool → Text → Text
dash_runs in_run [] = []
dash_runs in_run (c ∷ s) =
    let token = c ∷ dash_runs false s in
    let run = dash_runs true s in if is_token c then token else if in_run then run else b'-' ∷ run

abbrev pub strip_dashes : Text → Text
strip_dashes [] = []
strip_dashes (c ∷ s) = let rest = strip_dashes s in if c == b'-' then rest else c ∷ s

abbrev pub or_x : Text → Text
or_x [] = codes "x"
or_x (c ∷ s) = c ∷ s

unfoldable pub tokenize : (Text → Text) → Text → Text
unfolding to_lower_case
tokenize wide s = or_x (
    take 64
      (reverse (strip_dashes (reverse (strip_dashes (dash_runs false (to_lower_case wide s)))))))

-- `!entityId`
abbrev pub is_unset : Option Text → Bool
is_unset (some (c ∷ s)) = false
is_unset _ = true

unfoldable pub build_storage_key : (Text → Text) → Text → Option Text → ℕ → Text → Text
unfolding tokenize to_string
build_storage_key wide entity_type entity_id uploader_id tail =
    if text_eq entity_type library_entity_type || is_unset entity_id
    then library_entity_type ++ codes "/" ++ to_string uploader_id ++ codes "/" ++ tail
    else tokenize wide entity_type
      ++ codes "/"
      ++ tokenize wide (or_default entity_id [])
      ++ codes "/"
      ++ tail

-- `Boolean(k)`
abbrev pub present : Option Text → List Text
present (some (c ∷ s)) = (c ∷ s) ∷ []
present _ = []

abbrev pub collect_keys : List MediaAsset → List Text
collect_keys [] = []
collect_keys (r ∷ rows) =
    present (some r.storage_key)
    ++ present r.thumbnail_key
    ++ present r.medium_key
    ++ collect_keys rows

-- `key ? (urlMap.get(key) ?? null) : null`
abbrev pub url_of : Option Text → List (Text × Text) → Option Text
url_of (some (c ∷ s)) url_map = lookup (c ∷ s) url_map
url_of _ url_map = none

abbrev pub to_view_with_urls : MediaAsset → List (Text × Text) → MediaAssetView
to_view_with_urls asset url_map = record {
  id = asset.id;
  storage_key = asset.storage_key;
  original_filename = asset.original_filename;
  mime_type = asset.mime_type;
  size = asset.size;
  entity_type = asset.entity_type;
  entity_id = asset.entity_id;
  entity_subtype = asset.entity_subtype;
  tags = asset.tags;
  uploaded_by = asset.uploaded_by;
  attached_at = asset.attached_at;
  processed_at = asset.processed_at;
  created_at = asset.created_at;
  updated_at = asset.updated_at;
  preview_url = lookup asset.storage_key url_map;
  urls = record {
    original = lookup asset.storage_key url_map;
    medium = url_of asset.medium_key url_map;
    thumbnail = url_of asset.thumbnail_key url_map;
  };
}

module _ (p : MediaPorts) where
  abbrev pub random_uuid : Method p Text
  random_uuid w = (ok (p.random_uuid w.moment), record w { moment = w.moment + 1 })

  -- `bound ? new Date() : null`
  abbrev pub attached_now : Text → Method p (Option ℕ)
  attached_now entity_type w = elim (text_eq entity_type library_entity_type) [
    | true ↦ (ok none, w)
    | false ↦ (now p >>= λ moment. pure (some moment)) w
  ]

  abbrev from_result : {A : Type 0} → Result A → Method p A
  from_result r w = (r, w)

  abbrev pub too_large : PresignUploadParams → Bool
  too_large params = ltb (max_file_size_for params.mime_type) params.file_size

  abbrev entity_type_of : Option Text → Text
  entity_type_of entity_type = or_default entity_type library_entity_type

  abbrev signed_upload : PresignUploadParams → Text → Method p Text
  signed_upload params storage_key = on_storage p (
      p.storage.presign_upload (record {
        key = storage_key;
        content_type = params.mime_type;
        expires_in = none;
        cache_control = some (cache_control_for params.mime_type);
        content_length_range = some (record { min = 1; max = max_file_size_for params.mime_type });
      }))

  abbrev new_upload : PresignUploadParams → Text → Text → Option ℕ → NewMediaAsset
  new_upload params storage_key filename attached_at = record {
    storage_key = storage_key;
    original_filename = filename;
    mime_type = params.mime_type;
    size = params.file_size;
    entity_type = entity_type_of params.entity_type;
    entity_id = params.entity_id;
    entity_subtype = params.entity_subtype;
    tags = or_default params.tags [];
    uploaded_by = some params.uploader_id;
    attached_at = attached_at;
  }

  -- What follows once the file's name is accepted and the key is built.
  abbrev upload_to : PresignUploadParams → Text → Text → Method p PresignUploadResult
  unfolding create
  upload_to params filename storage_key = signed_upload params storage_key >>= λ upload_url.
      attached_now (entity_type_of params.entity_type) >>= λ attached_at.
      create p (new_upload params storage_key filename attached_at) >>= λ created.
      on_storage p (
        p.storage.presign_read
          (record { key = storage_key; expires_in = some preview_ttl_seconds }))
      >>= λ preview_url. pure (record {
        asset_id = created.id;
        storage_key = storage_key;
        upload_url = upload_url;
        preview_url = preview_url;
        expires_in = or_default p.presign_expires 900;
        cache_control = cache_control_for params.mime_type;
        max_file_size = max_file_size_for params.mime_type;
      })

  unfoldable pub presign_upload : PresignUploadParams → Method p PresignUploadResult
  unfolding upload_to sanitize_filename build_storage_key
  presign_upload params =
      throw_if (too_large params) (domain "MEDIA_FILE_SIZE_EXCEEDS_LIMIT")
      >> from_result (sanitize_filename params.filename)
      >>= λ filename. random_uuid >>= λ uuid. upload_to params filename (
          build_storage_key p.wide (entity_type_of params.entity_type) params.entity_id
            params.uploader_id (uuid ++ codes "-" ++ filename))

  abbrev pub view_of : MediaAsset → Method p MediaAssetView
  view_of asset =
      on_storage p
        (p.storage.presign_read_many (collect_keys (asset ∷ [])) (some preview_ttl_seconds))
      >>= λ url_map. pure (to_view_with_urls asset url_map)

  unfoldable pub register_asset : RegisterAssetParams → Method p MediaAssetView
  unfolding create
  register_asset params = attached_now (entity_type_of params.entity_type) >>= λ attached_at.
      create p (record {
        storage_key = params.storage_key;
        original_filename = params.original_filename;
        mime_type = params.mime_type;
        size = params.size;
        entity_type = entity_type_of params.entity_type;
        entity_id = params.entity_id;
        entity_subtype = params.entity_subtype;
        tags = or_default params.tags [];
        uploaded_by = params.uploader_id;
        attached_at = attached_at;
      })
      >>= view_of

  abbrev pub views_of : List MediaAsset → Method p (List MediaAssetView)
  views_of [] = pure []
  views_of (row ∷ rows) =
      on_storage p
        (p.storage.presign_read_many (collect_keys (row ∷ rows)) (some preview_ttl_seconds))
      >>= λ url_map. pure (map (λ r. to_view_with_urls r url_map) (row ∷ rows))

  unfoldable pub list_by_entity : Text → Text → Method p (List MediaAssetView)
  unfolding find_by_entity
  list_by_entity entity_type entity_id = find_by_entity p entity_type entity_id >>= views_of

  unfoldable pub process : ℕ → Method p MediaAssetView
  unfolding find_by_id enqueue
  process asset_id = find_by_id p asset_id >>= λ found.
      or_throw found (domain "MEDIA_ASSET_NOT_FOUND") >>= λ asset.
      enqueue p asset_id >> view_of asset

-- The service as the port.
abbrev pub asset_port : MediaPorts → AssetPort
asset_port p = record {
  State = World p;
  presign_upload = presign_upload p;
  register_asset = register_asset p;
  list_by_entity = list_by_entity p;
}
