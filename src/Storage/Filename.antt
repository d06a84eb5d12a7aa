-- ===== src/Storage/Filename.antt =====
-- src/modules/platform/storage/utils/sanitize-filename.ts: a file's name becomes a segment of a
-- storage key.
pub mod Segment
use nestjs_boilerplate.Base.{
  ℕ, ◌==◌, leb, ◌&&◌, ◌||◌, Bool, true, false, not, List, [], ◌∷◌, any, map, take, if◌then◌else◌,
  Text, Result, ok, err, domain,
}
use nestjs_boilerplate.Auth.Normalize.{trim}

-- `/[\\/]/`
abbrev pub is_separator : ℕ → Bool
is_separator c = c == b'/' || c == b'\\'

-- `s.split(/[\\/]/g).pop()`
abbrev pub last_component : Text → Text
last_component [] = []
last_component (c ∷ s) =
    let rest = last_component s in
    if any is_separator s then rest else if is_separator c then s else c ∷ s

-- `/[a-zA-Z0-9._-]/`
abbrev pub is_safe : ℕ → Bool
is_safe c =
    (leb b'a' c && leb c b'z')
    || (leb b'A' c && leb c b'Z')
    || (leb b'0' c && leb c b'9')
    || (c == b'.' || c == b'_' || c == b'-')

abbrev pub to_safe : ℕ → ℕ
to_safe c = if is_safe c then c else b'-'

abbrev required : Text → Result Text → Result Text
required [] r = err (domain "STORAGE_FILENAME_REQUIRED")
required (_ ∷ _) r = r

abbrev valid : Text → Result Text
valid [] = err (domain "STORAGE_FILENAME_INVALID")
valid (c ∷ s) = ok (take 200 (c ∷ s))

unfoldable pub sanitize_filename : Text → Result Text
unfolding trim
sanitize_filename filename =
    let name = trim filename in required name (valid (map to_safe (last_component name)))
