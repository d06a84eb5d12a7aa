-- ===== src/Storage/Gcs/Many.antt =====
-- The URLs of many keys over a bucket, whose client may give another outcome at each moment.
use nestjs_boilerplate.Base.{ℕ, ◌≡◌, false, Option, List, [], ◌∷◌, ◌++◌, has, Text, Action}
use nestjs_boilerplate.Shared.Concurrency.{map_with_concurrency}
use nestjs_boilerplate.Storage.Cached.Agreement.{for_key}
use nestjs_boilerplate.Storage.Gcs.{GcsPorts, collect, presign_read}

-- A list of keys in which the key stands once, behind `before`.
abbrev pub IsOnce : Text → List Text → List Text → Type 0
IsOnce key keys before =
    (after : List Text) × (keys ≡ before ++ key ∷ after)
    × (has key before ≡ false)
    × (has key after ≡ false)

module _ {W : Type 0} (worker : Text → Action W Text) where
  -- The state behind the calls for the keys, one after the other.
  abbrev pub after_calls : List Text → W → W
  after_calls [] w = w
  after_calls (key ∷ keys) w = after_calls keys (worker key w).1

  abbrev collected : List Text → List (Text × Text) → W → List (Text × Text)
  collected keys m w = collect keys (map_with_concurrency worker keys w).0 m

module _ (p : GcsPorts) where
  -- `presignRead` for a key.
  abbrev pub read_of : Option ℕ → Text → Action p.State Text
  read_of expires_in key = presign_read p (for_key key expires_in)
