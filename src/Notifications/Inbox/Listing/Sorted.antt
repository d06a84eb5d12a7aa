-- ===== src/Notifications/Inbox/Listing/Sorted.antt =====
-- What a listing of the inbox holds, and in which order.
use mathlib.Core.List.{Perm}
use mathlib.Core.List.Perm
use nestjs_boilerplate.Base.{
  ℕ, suc, ◌<◌, ◌≤◌, ◌==◌, ltb, not, ◌≡◌, refl, ◌&&◌, ◌||◌, Bool, true, false, Option, none, some,
  List, [], ◌∷◌, map, length, filter, ok, arith, Bool-cases, ◌⊎◌, inl, inr, ap, sym, subst, ◌∙◌,
}
use nestjs_boilerplate.Shared.Table.{TableLaws}
use nestjs_boilerplate.Shared.Pagination.{page_of, build_pagination_meta}
use nestjs_boilerplate.Notifications.Types.{Notification}
use nestjs_boilerplate.Notifications.Repository.{Fits, is_null}
use nestjs_boilerplate.Notifications.Ports.{Ports, World}
use nestjs_boilerplate.Notifications.Inbox.Listing.{
  ListForUserParams, to_notification_response, is_newer, insert_newest, newest_first, is_listed,
  list_for_user,
}

-- Each row is at least as new as the next one: it was created later, or at the same time and its id
-- is not smaller.
abbrev pub IsNewestFirst : List Notification → Type 0
IsNewestFirst [] = Unit
IsNewestFirst (n ∷ []) = Unit
IsNewestFirst (n ∷ m ∷ ns) =
    ((m.created_at < n.created_at) ⊎ ((m.created_at ≡ n.created_at) × (m.id ≤ n.id)))
    × IsNewestFirst (m ∷ ns)

-- No row comes before the one in front of it.
abbrev IsDescending : List Notification → Type 0
IsDescending [] = Unit
IsDescending (n ∷ []) = Unit
IsDescending (n ∷ m ∷ ns) = (is_newer m n ≡ false) × IsDescending (m ∷ ns)

not_newer :
    (m n : Notification)
    → is_newer m n ≡ false
    → (m.created_at < n.created_at) ⊎ ((m.created_at ≡ n.created_at) × (m.id ≤ n.id))
not_newer m n h = elim (Bool-cases (ltb m.created_at n.created_at)) [
  | inl below ↦ inl (ground (arith, below))
  | inr above ↦ elim (Bool-cases (m.created_at == n.created_at)) [
    | inl same ↦ inr (ground (arith, same), ground (arith, h, same))
    | inr apart ↦ let no : ⊥ = ground (arith, h, above, apart) in elim no [ ]
  ]
]

IsDescending-IsNewestFirst : (ns : List Notification) → IsDescending ns → IsNewestFirst ns
IsDescending-IsNewestFirst [] h = tt
IsDescending-IsNewestFirst (n ∷ []) h = tt
IsDescending-IsNewestFirst (n ∷ m ∷ ns) (h, hs) =
    (not_newer m n h, IsDescending-IsNewestFirst (m ∷ ns) hs)

newer_asym : (m n : Notification) → is_newer m n ≡ true → is_newer n m ≡ false
newer_asym m n h = ground (arith, h)

insert_newest-IsDescending :
    (n : Notification) (ns : List Notification)
    → IsDescending ns
    → IsDescending (insert_newest n ns)
insert_newest-IsDescending n [] h = tt
insert_newest-IsDescending n (m ∷ []) h = elim (Bool-cases (is_newer m n)) [
  | inl newer ↦ rw newer (newer_asym m n newer, tt)
  | inr older ↦ rw older (older, tt)
]
insert_newest-IsDescending n (m ∷ k ∷ ns) (h, hs) = elim (Bool-cases (is_newer m n)) [
  | inr older ↦ rw older (older, (h, hs))
  | inl newer ↦
      let rest = insert_newest-IsDescending n (k ∷ ns) hs in
      elim (Bool-cases (is_newer k n)) [
        | inl above ↦ rw (newer, above) (h, rw above at rest)
        | inr below ↦ rw (newer, below) (newer_asym m n newer, rw below at rest)
      ]
]

newest_first-IsDescending : (ns : List Notification) → IsDescending (newest_first ns)
newest_first-IsDescending [] = tt
newest_first-IsDescending (n ∷ ns) =
    insert_newest-IsDescending n (newest_first ns) (newest_first-IsDescending ns)

insert_newest-perm :
    (n : Notification) (ns : List Notification) → Perm (insert_newest n ns) (n ∷ ns)
insert_newest-perm n [] = Perm.rfl
insert_newest-perm n (m ∷ ns) = elim (Bool-cases (is_newer m n)) [
  | inl newer ↦ rw newer (Perm.trans (Perm.cons m (insert_newest-perm n ns)) (Perm.swap n m ns))
  | inr older ↦ rw older Perm.rfl
]

newest_first-perm : (ns : List Notification) → Perm (newest_first ns) ns
newest_first-perm [] = Perm.rfl
newest_first-perm (n ∷ ns) =
    Perm.trans (insert_newest-perm n (newest_first ns)) (Perm.cons n (newest_first-perm ns))

length-insert_newest :
    (n : Notification) (ns : List Notification) → length (insert_newest n ns) ≡ suc (length ns)
length-insert_newest n [] = refl
length-insert_newest n (m ∷ ns) = ground (arith, length-insert_newest n ns)

length-newest_first : (ns : List Notification) → length (newest_first ns) ≡ length ns
length-newest_first [] = refl
length-newest_first (n ∷ ns) =
    length-insert_newest n (newest_first ns) ∙ ap (λ (k : ℕ). suc k) (length-newest_first ns)

-- Whether a column has no value.
abbrev pub is_absent : Option ℕ → Bool
is_absent none = true
is_absent (some _) = false

-- What the inbox is asked for: the rows of the user that are not deleted, and where only unread ones
-- are wanted, not read.
abbrev pub is_wanted : ListForUserParams → Notification → Bool
is_wanted params n =
    n.recipient_user_id == params.recipient_user_id
    && is_absent n.deleted_at
    && (not params.unread_only || is_absent n.read_at)

is_null-is_absent : (v : Option ℕ) → is_null v ≡ is_absent v
is_null-is_absent none = refl
is_null-is_absent (some x) = refl

is_listed-is_wanted :
    (params : ListForUserParams) (n : Notification) → is_listed params n ≡ is_wanted params n
is_listed-is_wanted params n =
    let deleted = is_null-is_absent n.deleted_at in
    let read = is_null-is_absent n.read_at in
    elim (Bool-cases params.unread_only) [
      | inl unread ↦ ground (arith, unread, deleted, read)
      | inr every ↦ ground (arith, every, deleted, read)
    ]

filter-is_listed :
    (params : ListForUserParams) (ns : List Notification)
    → filter (is_listed params) ns ≡ filter (is_wanted params) ns
filter-is_listed params [] = refl
filter-is_listed params (n ∷ ns) =
    let same = is_listed-is_wanted params n in
    let rest = filter-is_listed params ns in
    elim (Bool-cases (is_wanted params n)) [
      | inl wanted ↦ rw (same, wanted) (ap (λ (ms : List Notification). n ∷ ms) rest)
      | inr unwanted ↦ rw (same, unwanted) rest
    ]

module _ (p : Ports) (laws : TableLaws Fits p.table) where
  -- `listForUser` changes nothing and answers with one page, with the page's envelope, of a list of
  -- rows. The list is a rearrangement of the table's rows of the user that are not deleted, and not
  -- read where only unread ones are asked for: none is lost and none stands twice. It is sorted by
  -- the creation, the newest first, and by the id, the larger first, where two rows were created at
  -- the same time.
  pub list_for_user_lem :
      (params : ListForUserParams) (w : World p)
      → (rows : List Notification) × (list_for_user p params w ≡ (
        ok (record {
          data_ = map to_notification_response (page_of params.page params.limit rows);
          meta = build_pagination_meta (length rows) params.page params.limit;
        }),
        w,
      ))
        × IsNewestFirst rows
        × Perm rows (filter (is_wanted params) (p.table.rows w.db))
  unfolding list_for_user
  list_for_user_lem params w =
      let found = filter (is_listed params) (p.table.rows w.db) in
      (
        newest_first found,
        rw (laws.select-rows (is_listed params) w.db, sym (length-newest_first found)) refl,
        IsDescending-IsNewestFirst (newest_first found) (newest_first-IsDescending found),
        subst (Perm (newest_first found)) (filter-is_listed params (p.table.rows w.db))
            (newest_first-perm found),
      )
