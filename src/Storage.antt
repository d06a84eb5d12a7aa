-- ===== src/Storage.antt =====
-- src/modules/platform/storage/interfaces: the port of the object storage, and its laws.
mod Tests
pub mod Cleanup
pub mod Filename
pub mod Gcs
pub mod Cached
use nestjs_boilerplate.Base.{
  ℕ, ◌≡◌, Bool, false, Option, some, List, All, Text, text_eq, ok, Action,
}

pub record ContentLengthRange : Type 0 where
  pub min : ℕ
  pub max : ℕ

pub record PresignUploadParams : Type 0 where
  pub key : Text
  pub content_type : Text
  pub expires_in : Option ℕ
  pub cache_control : Option Text
  pub content_length_range : Option ContentLengthRange

pub record PresignReadParams : Type 0 where
  pub key : Text
  pub expires_in : Option ℕ

-- A time that is not a number is `none`.
pub record StorageObjectInfo : Type 0 where
  pub name : Text
  pub time_created : Option ℕ

-- interface StorageService; a buffer is the list of its bytes.
pub record StorageService : Type 1 where
  pub State : Type 0
  pub presign_upload : PresignUploadParams → Action State Text
  pub presign_read : PresignReadParams → Action State Text
  pub presign_read_many : List Text → Option ℕ → Action State (List (Text × Text))
  pub object_exists : Text → Action State Bool
  pub list_objects : Text → Action State (List StorageObjectInfo)
  pub delete_object : Text → Action State (Unit {0})
  pub copy_object : Text → Text → Action State (Unit {0})
  pub download_object : Text → Action State (List ℕ)
  pub upload_object : Text → List ℕ → Text → Option Text → Action State (Unit {0})

-- What a client that lists and deletes relies on. `created` observes the state: the time at which
-- an object was created, where there is one.
pub record StorageLaws (s : StorageService) : Type 0 where
  pub created : Text → s.State → Option (Option ℕ)
  -- A listing changes nothing and reports the objects as they are.
  pub created-list :
      (prefix key : Text) (st : s.State) → created key (s.list_objects prefix st).1 ≡ created key st
  pub list_sound :
      (prefix : Text) (st : s.State) (list : List StorageObjectInfo)
      → (s.list_objects prefix st).0 ≡ ok list
      → All (λ (o : StorageObjectInfo). created o.name st ≡ some o.time_created) list
  -- A delete, failed or not, leaves the other objects.
  pub delete_other :
      (name key : Text) (st : s.State)
      → text_eq name key ≡ false
      → created key (s.delete_object name st).1 ≡ created key st
