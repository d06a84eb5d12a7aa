-- ===== src/Media/Processing.antt =====
-- src/modules/platform/media/services/media-processing.service.ts and
-- queue/media-processing.processor.ts: the variants of an image.
use nestjs_boilerplate.Base.{
  ℕ, Bool, true, false, Option, none, some, List, has, or_default, Text, codes, Result, ok, err,
  Action, pure, try_catch, ◌>>=◌, ◌>>◌,
}
use nestjs_boilerplate.Media.{
  MediaPorts, Method, MediaAsset, Variant, thumb, medium, media_mime_image, on_storage, now,
  find_by_id, update,
}
use nestjs_boilerplate.Media.Keys.{thumbnail_key, medium_key}

abbrev pub is_image : Text → Bool
is_image mime_type = has mime_type media_mime_image

abbrev pub static_immutable : Text
static_immutable = codes "public, max-age=31536000, immutable"

-- `Promise.all([m, n])`: both run, and the first rejection is the outcome.
abbrev pub both : {W : Type 0} → Action W (Unit {0}) → Action W (Unit {0}) → Action W (Unit {0})
both m n w =
    let (r, w') = m w in let (q, w'') = n w' in elim r [ ok _ ↦ (q, w'') | err e ↦ (err e, w'') ]

abbrev pub set_variants : ℕ → MediaAsset → MediaAsset → MediaAsset
unfolding thumbnail_key medium_key
set_variants moment asset a = record a {
  thumbnail_key = some (thumbnail_key asset.storage_key);
  medium_key = some (medium_key asset.storage_key);
  processed_at = some moment;
}

module _ (p : MediaPorts) where
  abbrev render : (Variant → List ℕ → Result (List ℕ)) → Variant → List ℕ → Method p (List ℕ)
  render sharp variant original w = (sharp variant original, w)

  abbrev upload_jpeg : Text → List ℕ → Method p (Unit {0})
  upload_jpeg key body =
      on_storage p (p.storage.upload_object key body (codes "image/jpeg") (some static_immutable))

  abbrev store_variants :
      (Variant → List ℕ → Result (List ℕ)) → MediaAsset → List ℕ → Method p MediaAsset
  unfolding update set_variants
  store_variants sharp asset original = render sharp thumb original >>= λ thumbnail_buf.
      render sharp medium original >>= λ medium_buf.
      both (upload_jpeg (thumbnail_key asset.storage_key) thumbnail_buf)
        (upload_jpeg (medium_key asset.storage_key) medium_buf)
      >> now p
      >>= λ moment. update p asset.id (set_variants moment asset) >>= λ updated.
          pure (or_default updated asset)

  -- A download that fails is the end of it: `none`.
  abbrev download : Text → Method p (Option (List ℕ))
  download key =
      try_catch (on_storage p (p.storage.download_object key) >>= λ body. pure (some body))
        (λ e. pure none)

  abbrev with_original :
      (Variant → List ℕ → Result (List ℕ)) → MediaAsset → Option (List ℕ) → Method p MediaAsset
  unfolding store_variants
  with_original sharp asset none = pure asset
  with_original sharp asset (some original) = store_variants sharp asset original

  abbrev with_sharp : Option (Variant → List ℕ → Result (List ℕ)) → MediaAsset → Method p MediaAsset
  unfolding with_original
  with_sharp none asset = pure asset
  with_sharp (some sharp) asset = download asset.storage_key >>= with_original sharp asset

  abbrev if_image : Bool → MediaAsset → Method p MediaAsset
  unfolding with_sharp
  if_image false asset = pure asset
  if_image true asset = with_sharp p.sharp asset

  abbrev unless_processed : Option ℕ → MediaAsset → Method p MediaAsset
  unfolding if_image
  unless_processed (some moment) asset = pure asset
  unless_processed none asset = if_image (is_image asset.mime_type) asset

  unfoldable pub ensure_processed : MediaAsset → Method p MediaAsset
  unfolding unless_processed
  ensure_processed asset = unless_processed asset.processed_at asset

  abbrev process_found : Option MediaAsset → Method p (Unit {0})
  unfolding ensure_processed
  process_found none = pure tt
  process_found (some asset) = ensure_processed asset >> pure tt

  -- MediaProcessingProcessor.process
  unfoldable pub process : ℕ → Method p (Unit {0})
  unfolding find_by_id process_found
  process asset_id = find_by_id p asset_id >>= process_found
