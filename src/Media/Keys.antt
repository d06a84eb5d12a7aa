-- ===== src/Media/Keys.antt =====
-- The keys of variants: `splitKey` of
-- src/modules/platform/media/services/media-processing.service.ts.
use nestjs_boilerplate.Base.{
  ℕ, Bool, ◌≢◌, ◌⊎◌, append_nil, ◌==◌, ◌≡◌, refl, ap, sym, ◌∙◌, inl, inr, false, Option, none, some,
  [], ◌∷◌, ◌++◌, any, Text, text_eq, text_eq-prefix, codes, if◌then◌else◌, arith, Option-cases,
}

-- The text before and after the last `c`, where there is one.
abbrev pub split_last : ℕ → Text → Option (Text × Text)
split_last c [] = none
split_last c (d ∷ s) =
    let rest = split_last c s in
    elim rest [
      | some (before, after) ↦ some (d ∷ before, after)
      | none ↦ if d == c then some ([], s) else none
    ]

pub record SplitKey : Type 0 where
  pub dir : Text
  pub stem : Text

-- The file's name without its extension; a dot in front starts no extension.
abbrev pub stem_of : Text → Option (Text × Text) → Text
stem_of filename none = filename
stem_of filename (some ([], after)) = filename
stem_of filename (some (c ∷ before, after)) = c ∷ before

abbrev pub split_at : Text → Option (Text × Text) → SplitKey
split_at key none = record { dir = []; stem = stem_of key (split_last b'.' key) }
split_at key (some (before, filename)) = record {
  dir = before ++ b'/' ∷ [];
  stem = stem_of filename (split_last b'.' filename);
}

unfoldable pub split_key : Text → SplitKey
split_key key = split_at key (split_last b'/' key)

unfoldable pub thumbnail_key : Text → Text
unfolding split_key
thumbnail_key key = (split_key key).dir ++ (split_key key).stem ++ codes "-thumb.jpg"

unfoldable pub medium_key : Text → Text
unfolding split_key
medium_key key = (split_key key).dir ++ (split_key key).stem ++ codes "-medium.jpg"

abbrev pub is_slash : ℕ → Bool
is_slash c = c == b'/'

abbrev pub is_dot : ℕ → Bool
is_dot c = c == b'.'

-- Empty, or up to and with a slash.
abbrev pub IsFolder : Text → Type 0
IsFolder dir = (dir ≡ []) ⊎ ((before : Text) × (dir ≡ before ++ b'/' ∷ []))

abbrev pub behind_first : Text → Text
behind_first [] = []
behind_first (c ∷ s) = s

-- What stands behind the stem: nothing, where the stem has no dot behind its first character; else
-- a dot, behind a stem that is not empty, and no further dot.
abbrev pub IsExtension : Text → Text → Type 0
IsExtension stem ext =
    ((ext ≡ []) × (any is_dot (behind_first stem) ≡ false))
    ⊎ ((e : Text) × (ext ≡ b'.' ∷ e) × (any is_dot e ≡ false) × (stem ≢ []))

split_last-none : (c : ℕ) (s : Text) → split_last c s ≡ none → any (λ d. d == c) s ≡ false
split_last-none c [] h = refl
split_last-none c (d ∷ s) h = elim (Option-cases (split_last c s)) [
  | inr (parts, found) ↦ ground (arith, found, h)
  | inl missing ↦ ground (arith, missing, h, split_last-none c s missing)
]

split_last_lem :
    (c : ℕ) (s before after : Text)
    → split_last c s ≡ some (before, after)
    → (before ++ c ∷ after ≡ s) × (any (λ d. d == c) after ≡ false)
split_last_lem c [] before after h = ground (arith, h)
split_last_lem c (d ∷ s) before after h = elim (Option-cases (split_last c s)) [
  | inr ((before', after'), found) ↦
      let rest = split_last_lem c s before' after' found in
      let same_before : before ≡ d ∷ before' = ground (arith, found, h) in
      let same_after : after ≡ after' = ground (arith, found, h) in
      rw (same_before, same_after) (ap (λ (x : Text). d ∷ x) rest.0, rest.1)
  | inl missing ↦
      let hit : d ≡ c = ground (arith, missing, h) in
      let same_before : before ≡ [] = ground (arith, missing, h) in
      let same_after : after ≡ s = ground (arith, missing, h) in
      rw (same_before, same_after) (ap (λ (x : ℕ). x ∷ s) (sym hit), split_last-none c s missing)
]

tail-any : (p : ℕ → Bool) (s : Text) → any p s ≡ false → any p (behind_first s) ≡ false
tail-any p [] h = refl
tail-any p (c ∷ s) h = ground (arith, h)

-- The rest of a file's name after its stem.
stem_of_lem :
    (filename : Text)
    → (ext : Text) × (stem_of filename (split_last b'.' filename) ++ ext ≡ filename)
      × IsExtension (stem_of filename (split_last b'.' filename)) ext
stem_of_lem filename = by_dot (split_last b'.' filename) refl
  where
    by_dot :
        (parts : Option (Text × Text))
        → split_last b'.' filename ≡ parts
        → (ext : Text) × (stem_of filename parts ++ ext ≡ filename)
          × IsExtension (stem_of filename parts) ext
    by_dot none e = (
      [],
      append_nil filename,
      inl (refl, tail-any is_dot filename (split_last-none b'.' filename e)),
    )
    by_dot (some ([], after)) e =
        let (joined, no_dot) = split_last_lem b'.' filename [] after e in
        (
          [],
          append_nil filename,
          inl (refl, ap (λ (t : Text). any is_dot (behind_first t)) (sym joined) ∙ no_dot),
        )
    by_dot (some (c ∷ before, after)) e =
        let (joined, no_dot) = split_last_lem b'.' filename (c ∷ before) after e in
        (b'.' ∷ after, joined, inr (after, refl, no_dot, λ (h : c ∷ before ≡ []). cc))

append_assoc : (s t u : Text) → (s ++ t) ++ u ≡ s ++ (t ++ u)
append_assoc [] t u = refl
append_assoc (c ∷ s) t u = ap (λ (x : Text). c ∷ x) (append_assoc s t u)

-- `splitKey` takes a key apart with nothing lost: the folder, the stem and an extension make up the
-- key again. The folder is empty or ends by a slash, and what follows it has no slash. The
-- extension starts by the last dot of the file's name and is empty where the name has no dot, or
-- only one in front.
pub split_key_lem :
    (key : Text)
    → let k = split_key key in
      (ext : Text) × (k.dir ++ (k.stem ++ ext) ≡ key)
      × IsFolder k.dir
      × (any is_slash (k.stem ++ ext) ≡ false)
      × IsExtension k.stem ext
unfolding split_key
split_key_lem key = by_slash (split_last b'/' key) refl
  where
    by_slash :
        (parts : Option (Text × Text))
        → split_last b'/' key ≡ parts
        → let k = split_at key parts in
          (ext : Text) × (k.dir ++ (k.stem ++ ext) ≡ key)
          × IsFolder k.dir
          × (any is_slash (k.stem ++ ext) ≡ false)
          × IsExtension k.stem ext
    by_slash none e =
        let (ext, whole, is_ext) = stem_of_lem key in
        (ext, whole, inl refl, ap (any is_slash) whole ∙ split_last-none b'/' key e, is_ext)
    by_slash (some (before, filename)) e =
        let (ext, whole, is_ext) = stem_of_lem filename in
        let (joined, no_slash) = split_last_lem b'/' key before filename e in
        (
          ext,
          ap (λ (x : Text). (before ++ b'/' ∷ []) ++ x) whole
              ∙ append_assoc before (b'/' ∷ []) filename
              ∙ joined,
          inr (before, refl),
          ap (any is_slash) whole ∙ no_slash,
          is_ext,
        )

dash-IsExtension : (s stem ext : Text) → IsExtension stem ext → text_eq (b'-' ∷ s) ext ≡ false
unfolding text_eq
dash-IsExtension s stem ext (inl (none_left, _)) = ap (text_eq (b'-' ∷ s)) none_left
dash-IsExtension s stem ext (inr (e, dotted, _, _)) = ap (text_eq (b'-' ∷ s)) dotted

-- The keys of the variants differ from the key of the original and from each other, so that no
-- upload of a variant overwrites the original.
pub variant_keys :
    (key : Text)
    → (text_eq (thumbnail_key key) key ≡ false)
      × (text_eq (medium_key key) key ≡ false)
      × (text_eq (thumbnail_key key) (medium_key key) ≡ false)
unfolding thumbnail_key medium_key text_eq
variant_keys key =
    let (ext, whole, _, _, is_ext) = split_key_lem key in
    let stem = (split_key key).dir ++ (split_key key).stem in
    let joined = append_assoc (split_key key).dir (split_key key).stem ext ∙ whole in
    (
      ap (text_eq (stem ++ codes "-thumb.jpg")) (sym joined)
          ∙ text_eq-prefix stem (codes "-thumb.jpg") ext
          ∙ dash-IsExtension (codes "thumb.jpg") (split_key key).stem ext is_ext,
      ap (text_eq (stem ++ codes "-medium.jpg")) (sym joined)
          ∙ text_eq-prefix stem (codes "-medium.jpg") ext
          ∙ dash-IsExtension (codes "medium.jpg") (split_key key).stem ext is_ext,
      text_eq-prefix stem (codes "-thumb.jpg") (codes "-medium.jpg"),
    )
