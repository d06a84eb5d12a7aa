-- ===== src/Storage/Gcs/Contract.antt =====
-- The service over the bucket keeps the promise of the port that the caching decorator relies on.
use nestjs_boilerplate.Base.{
  is_ok, or_default, ℕ, ◌≡◌, refl, ap, sym, ◌∙◌, true, ◌&&◌, ◌||◌, Option, some, List, [], ◌∷◌, All,
  has, unique, set_key, keys_of, has-set_key, has-unique, Text, text_eq, text_eq→eq, Result, ok,
  Result-cases, Bool-cases, inl, inr, arith, Action,
}
use nestjs_boilerplate.Shared.Concurrency.{map_with_concurrency}
use nestjs_boilerplate.Storage.{PresignReadParams}
use nestjs_boilerplate.Storage.Cached.Agreement.{for_key, SignsAlike}
use nestjs_boilerplate.Storage.Gcs.{
  GcsPorts, default_expiry, collect, presign_read, presign_read_many, gcs_storage_service,
}

module _ {W : Type 0} (worker : Text → Action W Text) (f : Text → Result Text)
    (same : (key : Text) (w : W) → (worker key w).0 ≡ f key) where
  abbrev Right : List (Text × Text) → Type 0
  Right m = All (λ (e : Text × Text). f e.0 ≡ ok e.1) m

  set_key-Right :
      (key url : Text) (m : List (Text × Text))
      → f key ≡ ok url
      → Right m
      → Right (set_key key url m)
  set_key-Right key url [] here right = (here, tt)
  set_key-Right key url ((k, v) ∷ m) here (first, right) = elim (Bool-cases (text_eq k key)) [
    | inl same_key ↦ rw same_key ((ap f (text_eq→eq k key same_key) ∙ here, right))
    | inr other ↦ rw other ((first, set_key-Right key url m here right))
  ]

  collect-Right :
      (keys : List Text) (m : List (Text × Text)) (w : W)
      → Right m
      → Right (collect keys (map_with_concurrency worker keys w).0 m)
  unfolding map_with_concurrency
  collect-Right [] m w right = right
  collect-Right (key ∷ keys) m w right = elim (Result-cases (worker key w).0) [
    | inl (url, signed) ↦
        let here : f key ≡ ok url = sym (same key w) ∙ signed in
        rw signed (
          collect-Right keys (set_key key url m) (worker key w).1
            (set_key-Right key url m here right))
    | inr (e, failed) ↦ rw failed (collect-Right keys m (worker key w).1 right)
  ]

  has-collect :
      (k : Text) (keys : List Text) (m : List (Text × Text)) (w : W)
      → has k (keys_of (collect keys (map_with_concurrency worker keys w).0 m))
        ≡ ((has k keys && is_ok (f k)) || has k (keys_of m))
  unfolding map_with_concurrency
  has-collect k [] m w = refl
  has-collect k (key ∷ keys) m w =
      let at_key = same key w in
      let moved =
        λ (e : text_eq k key ≡ true). ap (λ (x : Text). is_ok (f x)) (text_eq→eq k key e) in
      elim (Result-cases (worker key w).0) [
        | inl (url, signed) ↦
            let rest = has-collect k keys (set_key key url m) (worker key w).1 in
            let set = has-set_key k key url m in
            elim (Bool-cases (text_eq k key)) [
              | inl this ↦ ground (arith, signed, rest, set, this, at_key, moved this)
              | inr other ↦ ground (arith, signed, rest, set, other)
            ]
        | inr (e, failed) ↦
            let rest = has-collect k keys m (worker key w).1 in
            elim (Bool-cases (text_eq k key)) [
              | inl this ↦ ground (arith, failed, rest, this, at_key, moved this)
              | inr other ↦ ground (arith, failed, rest, other)
            ]
      ]

module _ (p : GcsPorts)
    (steady : (params : PresignReadParams) (st st' : p.State)
      → (presign_read p params st).0 ≡ (presign_read p params st').0) where
  -- The call that the pool makes for a key.
  abbrev worker : Option ℕ → Text → Action p.State Text
  worker expires_in key =
      presign_read p
        (record { key = key; expires_in = some (or_default expires_in (default_expiry p)) })

  same_read :
      (key : Text) (expires_in : Option ℕ) (w : p.State)
      → (worker expires_in key w).0 ≡ (presign_read p (for_key key expires_in) w).0
  unfolding presign_read
  same_read key expires_in w = refl

  worker_at :
      (expires_in : Option ℕ) (st : p.State) (key : Text) (w : p.State)
      → (worker expires_in key w).0 ≡ (presign_read p (for_key key expires_in) st).0
  worker_at expires_in st key w = same_read key expires_in w ∙ steady (for_key key expires_in) w st

  -- Where the outcome of `presignRead` over the bucket does not depend on the moment,
  -- `presignReadMany` does not fail when a key does: it has an entry exactly for the keys that were
  -- asked for and that `presignRead` signs, with the URL that `presignRead` gives. This is what the
  -- caching decorator relies on.
  pub gcs_storage_service-SignsAlike : SignsAlike (gcs_storage_service p)
  unfolding gcs_storage_service presign_read_many
  gcs_storage_service-SignsAlike = record {
    many_ok = λ keys expires_in st. refl;
    many_right = λ keys expires_in st.
        collect-Right (worker expires_in)
          (λ (k : Text). (presign_read p (for_key k expires_in) st).0) (worker_at expires_in st)
          (unique keys) [] st tt;
    many_all = λ keys expires_in st key.
        let domain =
          has-collect (worker expires_in)
            (λ (k : Text). (presign_read p (for_key k expires_in) st).0) (worker_at expires_in st)
            key (unique keys) [] st in
        let same_keys = has-unique key keys in ground (arith, domain, same_keys);
  }
