-- ===== src/Notifications/Broadcast/Persisted.antt =====
-- Phase A of the worker: after it, every recipient of the chunk has a row of the broadcast.
use nestjs_boilerplate.Base.{
  ℕ, ◌≡◌, refl, not, true, Option, some, List, [], ◌∷◌, ◌++◌, map, filter, All, Text, ok, arith,
  Bool-cases, Option-cases, inl, inr, ◌⊎◌, ◌∙◌, ap, sym, text_eq_refl, append_nil, subst,
}
use nestjs_boilerplate.Shared.Table.{TableLaws, AllFit}
use nestjs_boilerplate.Shared.Users.{truthy, column_eq}
use nestjs_boilerplate.Notifications.Types.{
  Notification, NewNotification, BroadcastRecipient, BroadcastChunkJob,
}
use nestjs_boilerplate.Notifications.Repository.{
  Fits, in_array, of_chunk, bulk_insert, find_existing_by_broadcast,
}
use nestjs_boilerplate.Notifications.Ports.{Ports, World, insert}
use nestjs_boilerplate.Notifications.Broadcast.{recipient_ids, to_row, persist}
use nestjs_boilerplate.Notifications.Broadcast.Recorded.{
  is_recorded, recipients_of, any-append-l, any-append-r, existing-is_recorded,
  is_recorded-existing, AllRecorded,
}

module _ (job : BroadcastChunkJob) (b : Text) (given : truthy job.broadcast_id ≡ some b) where
  column : column_eq job.broadcast_id b ≡ true
  unfolding column_eq truthy
  column = elim (Option-cases job.broadcast_id) [
    | inl missing ↦ ground (arith, missing, given)
    | inr (v, e) ↦ same v e
  ]
    where
      same : (v : Text) → job.broadcast_id ≡ some v → column_eq job.broadcast_id b ≡ true
      same [] e = ground (arith, e, given)
      same (c ∷ v) e =
          let eq : some (c ∷ v) ≡ some b = ground (arith, e, given) in
          ground (arith, e, eq, text_eq_refl b)

  abbrev Known : List ℕ → List Notification → BroadcastRecipient → Type 0
  Known known added r = (in_array known r.user_id ≡ true) ⊎ (is_recorded b r.user_id added ≡ true)

  weaken_Known :
      (known : List ℕ) (n : Notification) (added : List Notification) (rs : List BroadcastRecipient)
      → All (Known known added) rs
      → All (Known known (n ∷ added)) rs
  weaken_Known known n added [] h = tt
  weaken_Known known n added (r ∷ rs) (inl there, hs) =
      (inl there, weaken_Known known n added rs hs)
  weaken_Known known n added (r ∷ rs) (inr h, hs) =
      (inr (ground (arith, h)), weaken_Known known n added rs hs)

  row-is_recorded :
      (r : BroadcastRecipient) (n : Notification) (added : List Notification)
      → Fits (to_row job r) n
      → is_recorded b r.user_id (n ∷ added) ≡ true
  row-is_recorded r n added fits =
      let kept : column_eq n.broadcast_id b ≡ true =
        ap (λ (c : Option Text). column_eq c b) fits.broadcast_id ∙ column in
      ground (arith, kept, fits.recipient_user_id)

  -- The recipients whose rows were inserted are recorded by these rows.
  inserted-is_recorded :
      (known : List ℕ) (rs : List BroadcastRecipient) (added : List Notification)
      → AllFit Fits
          (filter
            (λ (row : NewNotification). not (in_array known row.recipient_user_id))
            (map (to_row job) rs))
          added
      → All (Known known added) rs
  inserted-is_recorded known [] added fits = tt
  inserted-is_recorded known (r ∷ rs) added fits = elim (Bool-cases (in_array known r.user_id)) [
    | inl there ↦ (inl there, inserted-is_recorded known rs added (rw there at fits))
    | inr new ↦ grown added (λ rest. inserted-is_recorded known rs rest) (rw new at fits)
  ]
    where
      grown :
          (all_added : List Notification)
          → ((rest : List Notification)
              → AllFit Fits
                  (filter
                    (λ (row : NewNotification). not (in_array known row.recipient_user_id))
                    (map (to_row job) rs))
                  rest
              → All (Known known rest) rs)
          → AllFit Fits
              (to_row job r
                ∷ filter
                    (λ (row : NewNotification). not (in_array known row.recipient_user_id))
                    (map (to_row job) rs))
              all_added
          → All (Known known all_added) (r ∷ rs)
      grown [] others none_fit = elim none_fit [ ]
      grown (n ∷ rest) others (fit, fits') =
          (inr (row-is_recorded r n rest fit), weaken_Known known n rest rs (others rest fits'))

  AllRecorded-append :
      (known : List ℕ) (rows added : List Notification) (rs : List BroadcastRecipient)
      → ((user : ℕ) → in_array known user ≡ true → is_recorded b user rows ≡ true)
      → All (Known known added) rs
      → AllRecorded b rs (rows ++ added)
  AllRecorded-append known rows added [] old h = tt
  AllRecorded-append known rows added (r ∷ rs) old (inl there, hs) = (
    any-append-l _ rows added (old r.user_id there),
    AllRecorded-append known rows added rs old hs,
  )
  AllRecorded-append known rows added (r ∷ rs) old (inr h, hs) =
      (any-append-r _ rows added h, AllRecorded-append known rows added rs old hs)

  -- Where every recipient is known there is nothing to insert.
  nothing_new :
      (known : List ℕ) (rs : List BroadcastRecipient)
      → All (λ (r : BroadcastRecipient). in_array known r.user_id ≡ true) rs
      → filter
          (λ (row : NewNotification). not (in_array known row.recipient_user_id))
          (map (to_row job) rs)
        ≡ []
  nothing_new known [] h = refl
  nothing_new known (r ∷ rs) (h, hs) = rw h (nothing_new known rs hs)

abbrev users_of : List BroadcastRecipient → List ℕ
users_of rs = map (λ r. r.user_id) rs

-- Every recorded recipient is found by the selection of the chunk.
recipients_found :
    (b : Text) (ids : List ℕ) (rows : List Notification) (rs : List BroadcastRecipient)
    → ((user : ℕ) → in_array (users_of rs) user ≡ true → in_array ids user ≡ true)
    → AllRecorded b rs rows
    → All
        (λ (r : BroadcastRecipient).
          in_array (recipients_of (filter (of_chunk b ids) rows)) r.user_id ≡ true)
        rs
recipients_found b ids rows [] sub h = tt
recipients_found b ids rows (r ∷ rs) sub (h, hs) = (
  is_recorded-existing b ids r.user_id rows (sub r.user_id (ground arith)) h,
  recipients_found b ids rows rs (λ user k. sub user (ground (arith, k))) hs,
)

module _ (p : Ports) (laws : TableLaws Fits p.table) (job : BroadcastChunkJob) (b : Text)
    (given : truthy job.broadcast_id ≡ some b) where
  abbrev known : World p → List ℕ
  known w = recipients_of (filter (of_chunk b (recipient_ids job)) (p.table.rows w.db))

  filter_no_ids : (rows : List Notification) → filter (of_chunk b []) rows ≡ []
  filter_no_ids [] = refl
  filter_no_ids (n ∷ rows) = ground (arith, filter_no_ids rows)

  find_existing_lem :
      (ids : List ℕ) (db : p.table.Db)
      → find_existing_by_broadcast p.table b ids db ≡ filter (of_chunk b ids) (p.table.rows db)
  unfolding find_existing_by_broadcast
  find_existing_lem [] db = sym (filter_no_ids (p.table.rows db))
  find_existing_lem (i ∷ ids) db = laws.select-rows (of_chunk b (i ∷ ids)) db

  abbrev missing_rows : World p → List NewNotification
  missing_rows w =
      filter (λ (row : NewNotification). not (in_array (known w) row.recipient_user_id))
        (map (to_row job) job.recipients)

  persist_lem : (w : World p) → persist p job w ≡ insert p (bulk_insert p.table (missing_rows w)) w
  unfolding persist
  persist_lem w = rw (given, find_existing_lem (recipient_ids job) w.db) refl

  insert_lem :
      (news : List NewNotification) (w : World p) (added : List Notification)
      → (insert p (bulk_insert p.table news) w).0 ≡ ok added
      → (p.table.rows (insert p (bulk_insert p.table news) w).1.db ≡ p.table.rows w.db ++ added)
        × AllFit Fits news added
  unfolding bulk_insert
  insert_lem [] w added h =
      let none_added : [] ≡ added = ground (arith, h) in
      subst
        (λ (xs : List Notification).
          (p.table.rows w.db ≡ p.table.rows w.db ++ xs) × AllFit Fits [] xs)
        none_added (sym (append_nil (p.table.rows w.db)), tt)
  insert_lem (new ∷ news) w added h = elim (Option-cases (p.table.insert (new ∷ news) w.db)) [
    | inl refused ↦ ground (arith, refused, h)
    | inr ((written, db), done) ↦
        let same : written ≡ added = ground (arith, done, h) in
        let rows = laws.rows-insert (new ∷ news) w.db written db done in
        let fit = laws.insert_fit (new ∷ news) w.db written db done in
        (ground (arith, done, rows, same), subst (AllFit Fits (new ∷ news)) same fit)
  ]

  -- A row of each recipient is recorded once the rows of the chunk are inserted.
  pub persist-AllRecorded :
      (w : World p) {added : List Notification}
      → (persist p job w).0 ≡ ok added
      → AllRecorded b job.recipients (p.table.rows (persist p job w).1.db)
  persist-AllRecorded w {added} h =
      let same = persist_lem w in
      let (rows, fit) = insert_lem (missing_rows w) w added ((λ i. (sym same i).0) ∙ h) in
      subst (AllRecorded b job.recipients) (sym ((λ i. p.table.rows (same i).1.db) ∙ rows)) (
        AllRecorded-append job b given (known w) (p.table.rows w.db) added job.recipients
          (λ user k. existing-is_recorded b (recipient_ids job) user (p.table.rows w.db) k)
          (inserted-is_recorded job b given (known w) job.recipients added fit))

  -- And from then on there is nothing to insert.
  pub persist_again :
      (w : World p)
      → AllRecorded b job.recipients (p.table.rows w.db)
      → persist p job w ≡ (ok [], w)
  unfolding bulk_insert
  persist_again w there =
      persist_lem w
      ∙ rw
          (nothing_new job b given (known w) job.recipients (
            recipients_found b (recipient_ids job) (p.table.rows w.db) job.recipients (λ user k. k)
              there))
          refl
