-- ===== src/Storage/Gcs.antt =====
-- src/modules/platform/storage/services/gcs-storage.service.ts and utils/transient-signing-error.ts:
-- the port over a bucket of Google Cloud Storage, whose client is a package.
pub mod Contract
pub mod Many
use Prim.Native.String.{String}
use nestjs_boilerplate.Base.{
  includes, ℕ, ◌+◌, ◌*◌, ◌==◌, ◌&&◌, ◌||◌, Bool, true, false, Option, none, some, List, [], ◌∷◌,
  ◌++◌, map, any, unique, set_key, or_default, Text, codes, Exception, bad_request, unauthorized,
  conflict, internal_server_error, failure, domain, Action, pure, throw, throw_if, try_catch, ◌>>=◌,
  ◌>>◌,
}
use nestjs_boilerplate.Auth.Normalize.{trim, to_lower_case}
use nestjs_boilerplate.Shared.Otp.{to_string}
use nestjs_boilerplate.Shared.Retry.{RetryOptions, with_retry}
use nestjs_boilerplate.Shared.Concurrency.{
  PromiseSettledResult, fulfilled, rejected, map_with_concurrency,
}
use nestjs_boilerplate.Storage.{
  StorageService, StorageObjectInfo, PresignUploadParams, PresignReadParams, ContentLengthRange,
}

pub data SignAction : Type 0 where
  read write : SignAction

-- The options of `getSignedUrl` for the file `key`; `expires` is in milliseconds.
pub record SignedUrlConfig : Type 0 where
  pub key : Text
  pub action : SignAction
  pub expires : ℕ
  pub content_type : Option Text
  pub extension_headers : List (Text × Text)

-- A file of a listing, with the text of its metadata's `timeCreated`.
pub record BucketFile : Type 0 where
  pub name : Text
  pub time_created : Option Text

-- The client, the clock, the timer, `Date.parse` (`none` is NaN), the mapping of `toLowerCase`
-- outside ASCII, and the settings GCS_BUCKET and GCS_PRESIGN_EXPIRES.
pub record GcsPorts : Type 1 where
  pub State : Type 0
  pub get_signed_url : SignedUrlConfig → Action State Text
  pub exists : Text → Action State Bool
  pub get_files : Text → Action State (List BucketFile)
  pub delete : Text → Action State (Unit {0})
  pub copy : Text → Text → Action State (Unit {0})
  pub download : Text → Action State (List ℕ)
  pub save : Text → List ℕ → Text → Option Text → Action State (Unit {0})
  pub now : State → ℕ
  pub wait : ℕ → State → State
  pub date_parse : Text → Option ℕ
  pub wide : Text → Text
  pub bucket_name : Option Text
  pub presign_expires : Option ℕ

-- `error.message`
abbrev pub message : Exception → String
message (bad_request s) = s
message (unauthorized s) = s
message (conflict s) = s
message (internal_server_error s) = s
message (failure s) = s
message (domain s) = s

abbrev join : String → String → String
join String.[] t = t
join (String.◌∷◌ c s) t = String.◌∷◌ c (join s t)

abbrev pub transient_signing_markers : List Text
transient_signing_markers =
    codes "premature close"
    ∷ codes "econnreset"
    ∷ codes "etimedout"
    ∷ codes "socket hang up"
    ∷ codes "epipe"
    ∷ codes "eai_again"
    ∷ []

unfoldable pub is_transient_signing_error : (Text → Text) → Exception → Bool
unfolding to_lower_case
is_transient_signing_error wide error =
    let text = to_lower_case wide (codes (message error)) in
    any (λ marker. includes marker text) transient_signing_markers

-- Whether `!name?.trim()` holds.
abbrev is_blank : Text → Bool
is_blank [] = true
is_blank (_ ∷ _) = false

unfoldable pub unconfigured : Option Text → Bool
unfolding trim
unconfigured none = true
unconfigured (some name) = is_blank (trim name)

-- `if (x) { headers[name] = value(x) }`
abbrev header_if : {A : Type 0} → Option A → Text → (A → Text) → List (Text × Text)
header_if none name value = []
header_if (some x) name value = (name, value x) ∷ []

abbrev truthy_text : Option Text → Option Text
truthy_text (some (c ∷ s)) = some (c ∷ s)
truthy_text _ = none

abbrev range_text : ContentLengthRange → Text
unfolding to_string
range_text range = to_string range.min ++ codes "," ++ to_string range.max

abbrev extension_headers : PresignUploadParams → List (Text × Text)
extension_headers params =
    header_if (truthy_text params.cache_control) (codes "cache-control") (λ value. value)
    ++ header_if params.content_length_range (codes "x-goog-content-length-range") range_text

abbrev to_info : (Text → Option ℕ) → BucketFile → StorageObjectInfo
to_info date_parse f = record { name = f.name; time_created = parsed f.time_created }
  where
    parsed : Option Text → Option ℕ
    parsed none = none
    parsed (some raw) = date_parse raw

-- The entries of the keys that were signed.
abbrev pub collect :
    List Text → List (PromiseSettledResult Text) → List (Text × Text) → List (Text × Text)
collect (key ∷ keys) (fulfilled url ∷ outcomes) result =
    collect keys outcomes (set_key key url result)
collect (key ∷ keys) (rejected reason ∷ outcomes) result = collect keys outcomes result
collect _ _ result = result

module _ (p : GcsPorts) where
  abbrev pub Method : Type 0 → Type 0
  Method A = Action p.State A

  -- `this.bucket()`; the handle that it caches depends on the settings alone.
  unfoldable pub bucket : Method (Unit {0})
  unfolding unconfigured
  bucket =
      throw_if (unconfigured p.bucket_name)
        (internal_server_error "GCS_BUCKET is required for storage operations")

  abbrev pub default_expiry : ℕ
  default_expiry = or_default p.presign_expires 900

  abbrev pub signing_retry : RetryOptions
  signing_retry = record {
    attempts = some 4;
    base_delay_ms = some 150;
    should_retry = some (is_transient_signing_error p.wide);
  }

  -- The closure that `signWithRetry` gets: every attempt reads the clock.
  abbrev pub sign : (ℕ → SignedUrlConfig) → Method Text
  sign config = bucket >> λ w. p.get_signed_url (config (p.now w)) w

  abbrev pub sign_with_retry : Method Text → Method Text
  unfolding with_retry
  sign_with_retry op = with_retry op p.wait signing_retry

  unfoldable pub presign_upload : PresignUploadParams → Method Text
  unfolding sign_with_retry range_text
  presign_upload params =
      let expires_in = or_default params.expires_in default_expiry in
      sign_with_retry (
        sign (λ now. record {
          key = params.key;
          action = write;
          expires = now + expires_in * 1000;
          content_type = some params.content_type;
          extension_headers = extension_headers params;
        }))

  unfoldable pub presign_read : PresignReadParams → Method Text
  unfolding sign_with_retry
  presign_read params =
      let expires_in = or_default params.expires_in default_expiry in
      sign_with_retry (
        sign (λ now. record {
          key = params.key;
          action = read;
          expires = now + expires_in * 1000;
          content_type = none;
          extension_headers = [];
        }))

  -- `try { m } catch { throw new InternalServerErrorException(…) }`
  abbrev or_fail : {A : Type 0} → String → Method A → Method A
  or_fail what m = try_catch m (λ error. throw (internal_server_error (join what (message error))))

  unfoldable pub list_objects : Text → Method (List StorageObjectInfo)
  list_objects prefix =
      bucket >> p.get_files prefix >>= λ files. pure (map (to_info p.date_parse) files)

  unfoldable pub delete_object : Text → Method (Unit {0})
  delete_object key = or_fail "Failed to delete storage object: " (bucket >> p.delete key)

  unfoldable pub copy_object : Text → Text → Method (Unit {0})
  copy_object src_key dest_key =
      or_fail "Failed to copy storage object: " (bucket >> p.copy src_key dest_key)

  unfoldable pub download_object : Text → Method (List ℕ)
  download_object key = or_fail "Failed to download storage object: " (bucket >> p.download key)

  unfoldable pub upload_object : Text → List ℕ → Text → Option Text → Method (Unit {0})
  upload_object key body content_type cache_control =
      or_fail "Failed to upload storage object: "
        (bucket >> p.save key body content_type (truthy_text cache_control))

  unfoldable pub presign_read_many : List Text → Option ℕ → Method (List (Text × Text))
  unfolding presign_read map_with_concurrency
  presign_read_many keys expires_in w =
      let unique_keys = unique keys in
      let ttl = or_default expires_in default_expiry in
      let (outcomes, w') =
        map_with_concurrency (λ key. presign_read (record { key = key; expires_in = some ttl }))
          unique_keys w in
      pure (collect unique_keys outcomes []) w'

  unfoldable pub gcs_storage_service : StorageService
  unfolding presign_upload presign_read presign_read_many list_objects delete_object copy_object
      download_object upload_object
  gcs_storage_service = record {
    State = p.State;
    presign_upload = presign_upload;
    presign_read = presign_read;
    presign_read_many = presign_read_many;
    object_exists = λ key. bucket >> p.exists key;
    list_objects = list_objects;
    delete_object = delete_object;
    copy_object = copy_object;
    download_object = download_object;
    upload_object = upload_object;
  }
