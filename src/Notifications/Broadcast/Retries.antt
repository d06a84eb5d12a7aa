-- ===== src/Notifications/Broadcast/Retries.antt =====
-- What an attempt of the worker at a chunk leaves for the next one.
use nestjs_boilerplate.Base.{
  list-cases, ℕ, ◌+◌, ◌≡◌, refl, not, some, List, [], ◌∷◌, length, leb, filter, Text, if◌then◌else◌,
  ok, err, arith, Bool-cases, inl, inr, ◌∙◌, ap, sym, Result, Exception, Action, gets, ◌>>=◌, ◌⊎◌,
}
use nestjs_boilerplate.Shared.Table.{TableLaws, map_where}
use nestjs_boilerplate.Shared.Users.{truthy}
use nestjs_boilerplate.Notifications.Types.{
  Notification, BroadcastChunkJob, BroadcastChunkResult, SendPushResult, PushDeliveryStatus, sent,
  skipped,
}
use nestjs_boilerplate.Notifications.Repository.{
  Fits, in_array, pending_of_chunk, set_status, set_failed, mark_push_status_by_ids,
  mark_broadcast_pending_failed,
}
use nestjs_boilerplate.Notifications.Ports.{Ports, World}
use nestjs_boilerplate.Notifications.Broadcast.{
  recipient_ids, persist, pending_rows, deliver, record_push, process, on_failed, has_alias,
  external_ids, ids_of, push_params, none_pushed,
}
use nestjs_boilerplate.Notifications.Broadcast.Recorded.{
  is_recorded, AllRecorded, AllRecorded-weaken,
}
use nestjs_boilerplate.Notifications.Broadcast.Persisted.{persist-AllRecorded, persist_again}
use nestjs_boilerplate.Notifications.Broadcast.Settled.{
  any-map_where, map_where_never, marked_rows, is_due, pending_rows_lem, skipped_all,
  sent_and_skipped,
}

bind_ok :
    {W A B : Type 0} (m : Action W A) (f : A → Action W B) (w : W) (a : A)
    → (m w).0 ≡ ok a
    → (m >>= f) w ≡ f a (m w).1
bind_ok m f w a h = ground (arith, h)

bind_err :
    {W A B : Type 0} (m : Action W A) (f : A → Action W B) (w : W) (e : Exception)
    → (m w).0 ≡ err e
    → ((m >>= f) w).0 ≡ err e
bind_err m f w e h = ground (arith, h)

result-cases :
    {A : Type 0} (r : Result A) → ((a : A) × (r ≡ ok a)) ⊎ ((e : Exception) × (r ≡ err e))
result-cases (ok a) = inl (a, refl)
result-cases (err e) = inr (e, refl)

module _ (p : Ports) (laws : TableLaws Fits p.table) (job : BroadcastChunkJob) (b : Text)
    (given : truthy job.broadcast_id ≡ some b) where
  abbrev pub due : World p → List Notification
  due w = filter (is_due p laws job b given) (p.table.rows w.db)

  marked-is_recorded :
      (now : ℕ) (ids : List ℕ) (status : PushDeliveryStatus) (db : p.table.Db) (user : ℕ)
      → is_recorded b user (p.table.rows (mark_push_status_by_ids p.table now ids status db))
        ≡ is_recorded b user (p.table.rows db)
  marked-is_recorded now ids status db user =
      ap (is_recorded b user) (marked_rows p laws now ids status db)
      ∙ any-map_where _ (λ n. in_array ids n.id) (set_status now status) (p.table.rows db)
          (λ n. refl)

  -- The answer of the provider is recorded: no recorded row is lost, and unless the push failed no
  -- row of the chunk stays pending.
  record_push_lem :
      (k : ℕ) (result : SendPushResult) (w : World p)
      → let (r, w') = record_push p job k (due w) result w in
        ((user : ℕ)
          → is_recorded b user (p.table.rows w'.db) ≡ is_recorded b user (p.table.rows w.db))
        × (((x : BroadcastChunkResult) → (r ≡ ok x) → due w' ≡ []))
  unfolding record_push
  record_push_lem k result w = elim (Bool-cases result.skipped) [
    | inl no_op ↦ (
      (λ user.
          ground (arith, no_op, marked-is_recorded w.moment (ids_of (due w)) skipped w.db user)),
      (λ x h. ground (arith, no_op, skipped_all p laws job b given w.moment w.db)),
    )
    | inr on ↦ elim (Bool-cases result.delivered) [
      | inr undelivered ↦
          ((λ user. ground (arith, on, undelivered)), (λ x h. ground (arith, on, undelivered, h)))
      | inl delivered ↦
          let sent_ids = ids_of (filter (has_alias job) (due w)) in
          let others = filter (λ id. not (in_array sent_ids id)) (ids_of (due w)) in
          let db = mark_push_status_by_ids p.table w.moment sent_ids sent w.db in
          (
            (λ user. ground (
              arith,
              on,
              delivered,
              marked-is_recorded w.moment sent_ids sent w.db user,
              marked-is_recorded (w.moment + 1) others skipped db user,
            )),
            (λ x h. ground (
              arith,
              on,
              delivered,
              sent_and_skipped p laws job b given w.moment (w.moment + 1) sent_ids w.db,
            )),
          )
    ]
  ]

  deliver_lem :
      (k : ℕ) (w : World p)
      → let (r, w') = deliver p job k (due w) w in
        ((user : ℕ)
          → is_recorded b user (p.table.rows w'.db) ≡ is_recorded b user (p.table.rows w.db))
        × (((x : BroadcastChunkResult) → (r ≡ ok x) → due w' ≡ []))
  unfolding deliver
  deliver_lem k w = elim (list-cases (external_ids job (filter (has_alias job) (due w)))) [
    | inl nobody ↦
        rw (deliver, nobody)
          (
            (λ user. marked-is_recorded w.moment (ids_of (due w)) skipped w.db user),
            (λ x h. skipped_all p laws job b given w.moment w.db),
          )
    | inr (alias, aliases, e) ↦
        rw (deliver, e)
          (record_push_lem k (p.send_to_external_ids (push_params job (alias ∷ aliases)) w.moment)
            (record w {
              moment = w.moment + 1;
              pushes = push_params job (alias ∷ aliases) ∷ w.pushes;
            }))
  ]

  -- An attempt whose rows are inserted goes on with phase B on the rows that are pending.
  process_lem :
      (w : World p) (added : List Notification)
      → (persist p job w).0 ≡ ok added
      → process p job w ≡ deliver p job (length added) (due (persist p job w).1) (persist p job w).1
  unfolding process
  process_lem w added h =
      bind_ok (persist p job)
        (λ added'. gets (λ v. pending_rows p job added' v.db) >>= deliver p job (length added')) w
        added h
      ∙ ap (λ (ns : List Notification). deliver p job (length added) ns (persist p job w).1)
          (pending_rows_lem p laws job b given added (persist p job w).1.db)

  -- The rows of the inbox are inserted once: after an attempt at a job with a broadcast id whose
  -- insert was not refused, however its push ended, the next attempt finds every row and inserts
  -- none.
  pub persist-process :
      (w : World p) (added : List Notification)
      → (persist p job w).0 ≡ ok added
      → let w' = (process p job w).1 in persist p job w' ≡ (ok [], w')
  persist-process w added h =
      let e = process_lem w added h in
      let w1 = (persist p job w).1 in
      let kept = (deliver_lem (length added) w1).0 in
      persist_again p laws job b given (process p job w).1 (
        AllRecorded-weaken b job.recipients (p.table.rows w1.db)
          (p.table.rows (process p job w).1.db)
          (λ user k. (λ i. is_recorded b user (p.table.rows (e i).1.db)) ∙ kept user ∙ k)
          (persist-AllRecorded p laws job b given w h))

  process_refused :
      (w : World p) (e : Exception) → (persist p job w).0 ≡ err e → (process p job w).0 ≡ err e
  unfolding process
  process_refused w e h =
      bind_err (persist p job)
        (λ added. gets (λ v. pending_rows p job added v.db) >>= deliver p job (length added)) w e h

  deliver_nobody :
      (w : World p)
      → deliver p job 0 [] w ≡ (ok (none_pushed 0), record w { moment = w.moment + 1 })
  unfolding deliver mark_push_status_by_ids
  deliver_nobody w = refl

  -- Where nothing is pending the attempt pushes nothing.
  process_idle :
      (w : World p)
      → AllRecorded b job.recipients (p.table.rows w.db)
      → due w ≡ []
      → process p job w ≡ (ok (none_pushed 0), record w { moment = w.moment + 1 })
  process_idle w there none_left =
      let again = persist_again p laws job b given w there in
      process_lem w [] (λ i. (again i).0)
      ∙ ap (λ (v : World p). deliver p job 0 (due v) v) (λ i. (again i).1)
      ∙ ap (λ (ns : List Notification). deliver p job 0 ns w) none_left
      ∙ deliver_nobody w

  -- A chunk that was processed is not processed twice: where the job has a broadcast id, the next
  -- attempt inserts no row, pushes to nobody and changes no row.
  pub process-process :
      (w : World p) (r : BroadcastChunkResult)
      → (process p job w).0 ≡ ok r
      → let w' = (process p job w).1 in
        process p job w' ≡ (ok (none_pushed 0), record w' { moment = w'.moment + 1 })
  process-process w r h = elim (result-cases (persist p job w).0) [
    | inr (e, refused) ↦ cc (process_refused w e refused, h)
    | inl (added, done) ↦
        let e = process_lem w added done in
        let w1 = (persist p job w).1 in
        let main = deliver_lem (length added) w1 in
        process_idle (process p job w).1
          (AllRecorded-weaken b job.recipients (p.table.rows w1.db)
            (p.table.rows (process p job w).1.db)
            (λ user k. (λ i. is_recorded b user (p.table.rows (e i).1.db)) ∙ main.0 user ∙ k)
            (persist-AllRecorded p laws job b given w done))
          ((λ i. due (e i).1) ∙ main.1 r ((λ i. (sym e i).0) ∙ h))
  ]

  failed_rows :
      (ids : List ℕ) (db : p.table.Db)
      → p.table.rows (mark_broadcast_pending_failed p.table b ids db)
        ≡ map_where (pending_of_chunk b ids) set_failed (p.table.rows db)
  unfolding mark_broadcast_pending_failed
  failed_rows [] db =
      sym (map_where_never (pending_of_chunk b []) set_failed (p.table.rows db) (λ n. ground arith))
  failed_rows (i ∷ ids) db = laws.rows-update (pending_of_chunk b (i ∷ ids)) set_failed db

  all_failed :
      (rows : List Notification)
      → filter (is_due p laws job b given) (map_where (is_due p laws job b given) set_failed rows)
        ≡ []
  all_failed [] = refl
  all_failed (n ∷ rows) = ground (arith, all_failed rows)

  -- The handler of a failed attempt at a job with a broadcast id: once the attempts are used up it
  -- marks exactly the pending rows of the chunk as failed, so none stays pending; before that it
  -- changes nothing.
  pub on_failed_lem :
      (made attempts : ℕ) (w : World p)
      → let w' = (on_failed p made attempts job w).1 in
        (p.table.rows w'.db ≡ (
          if leb attempts made
          then map_where (pending_of_chunk b (recipient_ids job)) set_failed (p.table.rows w.db)
          else p.table.rows w.db))
        × (due w' ≡ (if leb attempts made then [] else due w))
  unfolding on_failed
  on_failed_lem made attempts w = elim (Bool-cases (leb attempts made)) [
    | inl last ↦
        let rows = failed_rows (recipient_ids job) w.db in
        (
          ground (arith, last, given, rows),
          ground (
            arith,
            last,
            given,
            ap (filter (is_due p laws job b given)) rows,
            all_failed (p.table.rows w.db),
          ),
        )
    | inr more ↦ (ground (arith, more, given), ground (arith, more, given))
  ]
