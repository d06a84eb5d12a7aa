-- ===== src/Storage/Cached/Agreement.antt =====
-- The cached URLs of many keys are those of the single keys.
use nestjs_boilerplate.Base.{
  answer, is_ok, ℕ, ◌≡◌, refl, ap, sym, ◌∙◌, ltb, true, ◌&&◌, Option, none, some, List, [], ◌∷◌,
  All, has, unique, lookup, set_key, keys_of, lookup-set_key, has-filter, has-unique, Text, text_eq,
  text_eq→eq, text_eq_sym, Result, ok, err, Result-cases, Option-cases, Bool-cases, inl, inr, arith,
  if◌then◌else◌,
}
use nestjs_boilerplate.Storage.{StorageService, PresignReadParams}
use nestjs_boilerplate.Storage.Cached.{
  CachedPorts, World, cached, is_missing, hits, missing, set_all, cache_ttl, presign_read,
  presign_read_many, read_unique, sign_missing,
}

abbrev pub for_key : Text → Option ℕ → PresignReadParams
for_key key expires_in = record { key = key; expires_in = expires_in }

abbrev pub entries : Result (List (Text × Text)) → List (Text × Text)
entries (ok m) = m
entries (err e) = []

-- `presignReadMany` does not fail, and at one moment it signs the keys that `presignRead` signs,
-- with the same URLs.
pub record SignsAlike (s : StorageService) : Type 0 where
  pub many_ok :
      (keys : List Text) (expires_in : Option ℕ) (st : s.State)
      → is_ok (s.presign_read_many keys expires_in st).0 ≡ true
  pub many_right :
      (keys : List Text) (expires_in : Option ℕ) (st : s.State)
      → All
          (λ (e : Text × Text). (s.presign_read (for_key e.0 expires_in) st).0 ≡ ok e.1)
          (entries (s.presign_read_many keys expires_in st).0)
  pub many_all :
      (keys : List Text) (expires_in : Option ℕ) (st : s.State) (key : Text)
      → has key (keys_of (entries (s.presign_read_many keys expires_in st).0))
        ≡ (has key keys && is_ok (s.presign_read (for_key key expires_in) st).0)

abbrev pub or_answer : Option Text → Option Text → Option Text
or_answer none o = o
or_answer (some url) o = some url

module _ (f : Text → Result Text) where
  abbrev Right : List (Text × Text) → Type 0
  Right m = All (λ (e : Text × Text). f e.0 ≡ ok e.1) m

  lookup-set_all :
      (key : Text) (fresh result : List (Text × Text))
      → Right fresh
      → lookup key (set_all fresh result)
        ≡ (if has key (keys_of fresh) then answer (f key) else lookup key result)
  lookup-set_all key [] result right = refl
  lookup-set_all key ((k, url) ∷ fresh) result (here, right) =
      let rest = lookup-set_all key fresh (set_key k url result) right in
      let set = lookup-set_key key k url result in
      let flip = text_eq_sym k key in
      elim (Bool-cases (text_eq k key)) [
        | inl same ↦
            let e : answer (f key) ≡ some url =
              ap (λ (x : Text). answer (f x)) (sym (text_eq→eq k key same))
              ∙ ap (λ (r : Result Text). answer r) here in
            ground (arith, rest, set, flip, same, e)
        | inr other ↦ ground (arith, rest, set, flip, other)
      ]

  lookup-Right :
      (key : Text) (m : List (Text × Text))
      → Right m
      → lookup key m ≡ (if has key (keys_of m) then answer (f key) else none)
  lookup-Right key [] right = refl
  lookup-Right key ((k, url) ∷ m) (here, right) =
      let rest = lookup-Right key m right in
      let flip = text_eq_sym k key in
      elim (Bool-cases (text_eq k key)) [
        | inl same ↦
            let e : answer (f key) ≡ some url =
              ap (λ (x : Text). answer (f x)) (sym (text_eq→eq k key same))
              ∙ ap (λ (r : Result Text). answer r) here in
            ground (arith, rest, flip, same, e)
        | inr other ↦ ground (arith, rest, flip, other)
      ]

module _ (p : CachedPorts) where
  lookup-hits :
      (key : Text) (keys : List Text) (w : World p)
      → lookup key (hits p keys w) ≡ (if has key keys then cached p key w else none)
  lookup-hits key [] w = refl
  lookup-hits key (k ∷ keys) w =
      let rest = lookup-hits key keys w in
      let flip = text_eq_sym k key in
      elim (Bool-cases (text_eq k key)) [
        | inl same ↦
            let e : cached p key w ≡ cached p k w =
              ap (λ (x : Text). cached p x w) (sym (text_eq→eq k key same)) in
            elim (Option-cases (cached p k w)) [
              | inl miss ↦ ground (arith, rest, flip, same, e, miss)
              | inr (url, hit) ↦ ground (arith, rest, flip, same, e, hit)
            ]
        | inr other ↦ elim (Option-cases (cached p k w)) [
          | inl miss ↦ ground (arith, rest, flip, other, miss)
          | inr (url, hit) ↦ ground (arith, rest, flip, other, hit)
        ]
      ]

  -- The signer's answer, where the cache has none.
  read_answer :
      (key : Text) (expires_in : Option ℕ) (w : World p)
      → answer (presign_read p (for_key key expires_in) w).0 ≡ (
          if ltb 0 (cache_ttl p expires_in)
          then or_answer
              (cached p key w)
              (answer (p.inner.presign_read (for_key key expires_in) w.objects).0)
          else answer (p.inner.presign_read (for_key key expires_in) w.objects).0)
  unfolding presign_read
  read_answer key expires_in w = elim (Bool-cases (ltb 0 (cache_ttl p expires_in))) [
    | inr direct ↦ ground (arith, direct)
    | inl caches ↦ elim (Option-cases (cached p key w)) [
      | inr (url, hit) ↦ ground (arith, caches, hit)
      | inl miss ↦ elim (Result-cases (p.inner.presign_read (for_key key expires_in) w.objects).0) [
        | inl (url, signed) ↦ ground (arith, caches, miss, signed)
        | inr (e, failed) ↦ ground (arith, caches, miss, failed)
      ]
    ]
  ]

  module _ (alike : SignsAlike p.inner) (expires_in : Option ℕ) (key : Text) where
    abbrev signed : World p → Option Text
    signed w = answer (p.inner.presign_read (for_key key expires_in) w.objects).0

    inner_many :
        (keys : List Text) (result : List (Text × Text)) (w : World p)
        → lookup key
            (set_all (entries (p.inner.presign_read_many keys expires_in w.objects).0) result)
          ≡ (if has key keys then or_answer (signed w) (lookup key result) else lookup key result)
    inner_many keys result w =
        let found =
          lookup-set_all (λ (k : Text). (p.inner.presign_read (for_key k expires_in) w.objects).0)
            key (entries (p.inner.presign_read_many keys expires_in w.objects).0) result
            (alike.many_right keys expires_in w.objects) in
        let domain = alike.many_all keys expires_in w.objects key in
        elim (Result-cases (p.inner.presign_read (for_key key expires_in) w.objects).0) [
          | inl (url, good) ↦ ground (arith, found, domain, good)
          | inr (e, failed) ↦ ground (arith, found, domain, failed)
        ]

    direct_many :
        (keys : List Text) (w : World p)
        → lookup key (entries (p.inner.presign_read_many keys expires_in w.objects).0)
          ≡ (if has key keys then signed w else none)
    direct_many keys w =
        let found =
          lookup-Right (λ (k : Text). (p.inner.presign_read (for_key k expires_in) w.objects).0) key
            (entries (p.inner.presign_read_many keys expires_in w.objects).0)
            (alike.many_right keys expires_in w.objects) in
        let domain = alike.many_all keys expires_in w.objects key in
        elim (Result-cases (p.inner.presign_read (for_key key expires_in) w.objects).0) [
          | inl (url, good) ↦ ground (arith, found, domain, good)
          | inr (e, failed) ↦ ground (arith, found, domain, failed)
        ]

    sign_missing_lem :
        (ttl : ℕ) (result : List (Text × Text)) (keys : List Text) (w : World p)
        → (is_ok (sign_missing p ttl expires_in result keys w).0 ≡ true)
          × (lookup key (entries (sign_missing p ttl expires_in result keys w).0) ≡ (
              if has key keys then or_answer (signed w) (lookup key result) else lookup key result))
    sign_missing_lem ttl result [] w = (refl, refl)
    sign_missing_lem ttl result (k ∷ keys) w =
        let okay = alike.many_ok (k ∷ keys) expires_in w.objects in
        let found = inner_many (k ∷ keys) result w in
        elim (Result-cases (p.inner.presign_read_many (k ∷ keys) expires_in w.objects).0) [
          | inl (m, done) ↦ (ground (arith, done), ground (arith, done, found))
          | inr (e, failed) ↦ ground (arith, failed, okay)
        ]

    read_unique_lem :
        (keys : List Text) (w : World p)
        → (is_ok (read_unique p keys expires_in w).0 ≡ true)
          × (lookup key (entries (read_unique p keys expires_in w).0) ≡ (
              if has key keys then answer (presign_read p (for_key key expires_in) w).0 else none))
    unfolding read_unique
    read_unique_lem [] w = (refl, refl)
    read_unique_lem (k ∷ keys) w =
        let one = read_answer key expires_in w in
        let found = lookup-hits key (k ∷ keys) w in
        let misses = has-filter (λ (x : Text). is_missing (cached p x w)) key (k ∷ keys) in
        let filled =
          sign_missing_lem (cache_ttl p expires_in) (hits p (k ∷ keys) w) (missing p (k ∷ keys) w)
            w in
        elim (Bool-cases (ltb 0 (cache_ttl p expires_in))) [
          | inr direct ↦
              let okay = alike.many_ok (k ∷ keys) expires_in w.objects in
              (ground (arith, direct, okay), ground (arith, direct, one, direct_many (k ∷ keys) w))
          | inl caches ↦ (
            ground (arith, caches, filled.0),
            elim (Option-cases (cached p key w)) [
              | inl miss ↦ ground (arith, caches, filled.1, one, found, misses, miss)
              | inr (url, hit) ↦ ground (arith, caches, filled.1, one, found, misses, hit)
            ],
          )
        ]

  -- Where the signer signs many keys as it signs one: `presignReadMany` of the caching decorator
  -- succeeds, and gives a key a URL exactly if the key was asked for and its `presignRead` would
  -- give it one at that moment, and then the same.
  pub presign_read_many_lem :
      SignsAlike p.inner
      → (keys : List Text) (expires_in : Option ℕ) (key : Text) (w : World p)
      → (is_ok (presign_read_many p keys expires_in w).0 ≡ true)
        × (lookup key (entries (presign_read_many p keys expires_in w).0)
            ≡ (if has key keys then answer (presign_read p (for_key key expires_in) w).0 else none))
  unfolding presign_read_many
  presign_read_many_lem alike keys expires_in key w =
      let (okay, found) = read_unique_lem alike expires_in key (unique keys) w in
      let same_keys = has-unique key keys in (okay, ground (arith, found, same_keys))
