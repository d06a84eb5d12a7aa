-- ===== src/Notifications/Broadcast/Settled.antt =====
-- The marks of phase B of the worker: which rows of a chunk stay pending.
use nestjs_boilerplate.Base.{
  ℕ, ◌==◌, ◌≡◌, refl, not, ◌&&◌, ◌||◌, Bool, true, false, some, List, [], ◌∷◌, filter, any, All,
  Text, arith, Bool-cases, inl, inr, ◌∙◌, ap, sym,
}
use nestjs_boilerplate.Shared.Table.{TableLaws, map_where}
use nestjs_boilerplate.Shared.Users.{truthy}
use nestjs_boilerplate.Notifications.Types.{
  Notification, BroadcastChunkJob, PushDeliveryStatus, sent, skipped,
}
use nestjs_boilerplate.Notifications.Repository.{
  Fits, in_array, pending_of_chunk, set_status, find_pending_by_broadcast, mark_push_status_by_ids,
}
use nestjs_boilerplate.Notifications.Ports.{Ports}
use nestjs_boilerplate.Notifications.Broadcast.{recipient_ids, pending_rows, ids_of}

pub any-map_where :
    {A : Type 0} (g q : A → Bool) (f : A → A) (xs : List A)
    → ((x : A) → g (f x) ≡ g x)
    → any g (map_where q f xs) ≡ any g xs
any-map_where g q f [] same = refl
any-map_where g q f (x ∷ xs) same = elim (Bool-cases (q x)) [
  | inl hit ↦ rw (hit, same x, any-map_where g q f xs same) refl
  | inr miss ↦ rw (miss, any-map_where g q f xs same) refl
]

-- An update of the pushed rows and one of the others leave no row pending.
settled :
    {A : Type 0} (is_due q q' : A → Bool) (f f' : A → A) (xs : List A)
    → ((x : A) → is_due (f x) ≡ false)
    → ((x : A) → is_due (f' x) ≡ false)
    → All (λ (x : A). (is_due x && not (q x || q' x)) ≡ false) xs
    → filter is_due (map_where q' f' (map_where q f xs)) ≡ []
settled is_due q q' f f' [] done done' h = refl
settled is_due q q' f f' (x ∷ xs) done done' (h, hs) =
    let rest = settled is_due q q' f f' xs done done' hs in
    elim (Bool-cases (q x)) [
      | inl hit ↦ elim (Bool-cases (q' (f x))) [
        | inl again ↦ rw (hit, again, done' (f x)) rest
        | inr once ↦ rw (hit, once, done x) rest
      ]
      | inr miss ↦ elim (Bool-cases (q' x)) [
        | inl hit' ↦ rw (miss, hit', done' x) rest
        | inr miss' ↦
            let not_due : is_due x ≡ false = ground (arith, h, miss, miss') in
            rw (miss, miss', not_due) rest
      ]
    ]

in_array-filter :
    (ids apart : List ℕ) (n : ℕ)
    → in_array (filter (λ id. not (in_array apart id)) ids) n
      ≡ (in_array ids n && not (in_array apart n))
in_array-filter [] apart n = refl
in_array-filter (i ∷ ids) apart n =
    let rest = in_array-filter ids apart n in
    elim (Bool-cases (i == n)) [
      | inl eq ↦
          let same : in_array apart i ≡ in_array apart n = ap (in_array apart) (ground arith) in
          ground (arith, rest, eq, same)
      | inr ne ↦ ground (arith, rest, ne)
    ]

pub map_where_never :
    {A : Type 0} (q : A → Bool) (f : A → A) (xs : List A)
    → ((x : A) → q x ≡ false)
    → map_where q f xs ≡ xs
map_where_never q f [] never = refl
map_where_never q f (x ∷ xs) never =
    rw (never x) (ap (λ (ys : List _). x ∷ ys) (map_where_never q f xs never))

settled_one :
    {A : Type 0} (is_due q : A → Bool) (f : A → A) (xs : List A)
    → ((x : A) → is_due (f x) ≡ false)
    → All (λ (x : A). (is_due x && not (q x || false)) ≡ false) xs
    → filter is_due (map_where q f xs) ≡ []
settled_one is_due q f xs done h =
    ap (filter is_due) (sym (map_where_never (λ x. false) f (map_where q f xs) (λ x. refl)))
    ∙ settled is_due q (λ x. false) f f xs done done h

-- Every pending row of the chunk is among the ones that are marked.
covered :
    (is_due : Notification → Bool) (hit : ℕ → Bool) (rows : List Notification)
    → ((id : ℕ) → in_array (ids_of (filter is_due rows)) id ≡ true → hit id ≡ true)
    → All (λ (n : Notification). (is_due n && not (hit n.id)) ≡ false) rows
covered is_due hit [] sub = tt
covered is_due hit (n ∷ rows) sub = elim (Bool-cases (is_due n)) [
  | inl due ↦ (
    ground (arith, due, sub n.id),
    covered is_due hit rows (λ id k. sub id (ground (arith, due, k))),
  )
  | inr fine ↦
      (ground (arith, fine), covered is_due hit rows (λ id k. sub id (ground (arith, fine, k))))
]

module _ (p : Ports) (laws : TableLaws Fits p.table) where
  pub marked_rows :
      (now : ℕ) (ids : List ℕ) (status : PushDeliveryStatus) (db : p.table.Db)
      → p.table.rows (mark_push_status_by_ids p.table now ids status db)
        ≡ map_where (λ n. in_array ids n.id) (set_status now status) (p.table.rows db)
  unfolding mark_push_status_by_ids
  marked_rows now [] status db =
      sym (map_where_never (λ n. false) (set_status now status) (p.table.rows db) (λ n. refl))
  marked_rows now (i ∷ ids) status db =
      laws.rows-update (λ n. in_array (i ∷ ids) n.id) (set_status now status) db

  module _ (job : BroadcastChunkJob) (b : Text) (given : truthy job.broadcast_id ≡ some b) where
    abbrev pub is_due : Notification → Bool
    is_due = pending_of_chunk b (recipient_ids job)

    none_due : (rows : List Notification) → filter (pending_of_chunk b []) rows ≡ []
    none_due [] = refl
    none_due (n ∷ rows) = ground (arith, none_due rows)

    pub find_pending_lem :
        (ids : List ℕ) (db : p.table.Db)
        → find_pending_by_broadcast p.table b ids db
          ≡ filter (pending_of_chunk b ids) (p.table.rows db)
    unfolding find_pending_by_broadcast
    find_pending_lem [] db = sym (none_due (p.table.rows db))
    find_pending_lem (i ∷ ids) db = laws.select-rows (pending_of_chunk b (i ∷ ids)) db

    pub pending_rows_lem :
        (inserted : List Notification) (db : p.table.Db)
        → pending_rows p job inserted db ≡ filter is_due (p.table.rows db)
    unfolding pending_rows
    pending_rows_lem inserted db =
        rw (pending_rows, given) (find_pending_lem (recipient_ids job) db)

    -- Skipping all pending rows leaves none.
    pub skipped_all :
        (now : ℕ) (db : p.table.Db)
        → filter is_due (
            p.table.rows (
              mark_push_status_by_ids p.table now
                (ids_of (filter is_due (p.table.rows db)))
                skipped
                db))
          ≡ []
    skipped_all now db =
        let ids = ids_of (filter is_due (p.table.rows db)) in
        rw (marked_rows now ids skipped db) (
          settled_one is_due (λ n. in_array ids n.id) (set_status now skipped) (p.table.rows db)
            (λ n. ground arith)
            (covered is_due (λ id. in_array ids id || false) (p.table.rows db)
              (λ id k. ground (arith, k))))

    -- So does marking some as sent and skipping the others.
    pub sent_and_skipped :
        (now later : ℕ) (sent_ids : List ℕ) (db : p.table.Db)
        → let pending_ids = ids_of (filter is_due (p.table.rows db)) in
          filter is_due (
            p.table.rows (
              mark_push_status_by_ids p.table later
                (filter (λ id. not (in_array sent_ids id)) pending_ids)
                skipped
                (mark_push_status_by_ids p.table now sent_ids sent db)))
          ≡ []
    sent_and_skipped now later sent_ids db =
        let pending_ids = ids_of (filter is_due (p.table.rows db)) in
        let others = filter (λ id. not (in_array sent_ids id)) pending_ids in
        rw
          (
            marked_rows later others skipped (mark_push_status_by_ids p.table now sent_ids sent db),
            marked_rows now sent_ids sent db,
          )
          (settled is_due (λ n. in_array sent_ids n.id) (λ n. in_array others n.id)
            (set_status now sent) (set_status later skipped) (p.table.rows db) (λ n. ground arith)
            (λ n. ground arith)
            (covered is_due (λ id. in_array sent_ids id || in_array others id) (p.table.rows db)
              (λ id k. ground (arith, k, in_array-filter pending_ids sent_ids id))))
