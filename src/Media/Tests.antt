-- ===== src/Media/Tests.antt =====
-- Keys of assets on concrete inputs.
use nestjs_boilerplate.Base.{◌≡◌, refl, ◌++◌, false, some, any, Text, text_eq, codes}
use nestjs_boilerplate.Media.Keys.{
  IsExtension, IsFolder, is_slash, split_key, thumbnail_key, split_key_lem,
}
use nestjs_boilerplate.Media.Assets.{tokenize, build_storage_key}

abbrev photo : Text
photo = codes "library/7/u1-photo.jpg"

split_key_lem_example :
    let k = split_key photo in
    (ext : Text) × (k.dir ++ (k.stem ++ ext) ≡ photo)
    × IsFolder k.dir
    × (any is_slash (k.stem ++ ext) ≡ false)
    × IsExtension k.stem ext
split_key_lem_example = split_key_lem photo

thumbnail_key_test : thumbnail_key photo ≡ codes "library/7/u1-photo-thumb.jpg"
unfolding thumbnail_key split_key
thumbnail_key_test = refl

tokenize_test : tokenize (λ s. s) (codes " Blog Post!! #42 ") ≡ codes "blog-post-42"
unfolding tokenize
tokenize_test = refl

-- An entity of type `Library` shares the folder of the uploads of the library.
build_storage_key_test :
    build_storage_key (λ s. s) (codes "Library") (some (codes "7")) 9 (codes "f")
    ≡ build_storage_key (λ s. s) (codes "library") (some (codes "7")) 7 (codes "f")
unfolding build_storage_key text_eq
build_storage_key_test = refl
