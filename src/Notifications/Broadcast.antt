-- ===== src/Notifications/Broadcast.antt =====
-- src/modules/platform/notifications/queue/notification-broadcast.processor.ts: the worker of the
-- queue of broadcasts. A chunk is tried again as long as it throws and has attempts left.
pub mod Recorded
pub mod Persisted
pub mod Settled
pub mod Retries
use nestjs_boilerplate.Base.{
  or_default, ℕ, ◌+◌, ◌==◌, leb, not, ◌&&◌, Bool, true, false, Option, none, some, List, [], ◌∷◌,
  map, filter, any, length, Text, if◌then◌else◌, Result, ok, err, failure, Action, pure, throw,
  when, gets, ◌>>=◌, ◌>>◌,
}
use nestjs_boilerplate.Shared.Users.{truthy}
use nestjs_boilerplate.Notifications.Types.{
  Notification, NewNotification, BroadcastRecipient, BroadcastChunkJob, BroadcastChunkResult,
  SendPushParams, SendPushResult, PushDeliveryStatus, pending, sent, failed, skipped,
  resolve_localized_text,
}
use nestjs_boilerplate.Notifications.Repository
use nestjs_boilerplate.Notifications.Repository.{in_array}
use nestjs_boilerplate.Notifications.Ports.{Ports, World, Method, send, update, insert}

abbrev pub recipient_ids : BroadcastChunkJob → List ℕ
recipient_ids job = map (λ r. r.user_id) job.recipients

-- The inbox row of a recipient.
abbrev pub to_row : BroadcastChunkJob → BroadcastRecipient → NewNotification
to_row job r = record {
  recipient_user_id = r.user_id;
  type = job.type;
  title = resolve_localized_text job.title r.locale;
  body = resolve_localized_text job.body r.locale;
  deep_link = job.deep_link;
  icon_url = job.icon_url;
  payload = or_default job.payload [];
  broadcast_id = job.broadcast_id;
  push_delivery_status = some pending;
}

-- `new Map(recipients.filter((r) => r.pushExternalId).map(…))`, read at a user: the last entry wins.
unfoldable pub alias_by_user : List BroadcastRecipient → ℕ → Option Text
unfolding truthy
alias_by_user [] user = none
alias_by_user (r ∷ rs) user =
    let rest = alias_by_user rs user in
    elim rest [
      | some alias ↦ some alias
      | none ↦ if r.user_id == user then truthy r.push_external_id else none
    ]

abbrev pub has_alias : BroadcastChunkJob → Notification → Bool
has_alias job n = elim (alias_by_user job.recipients n.recipient_user_id) [
  | none ↦ false
  | some _ ↦ true
]

abbrev pub external_ids : BroadcastChunkJob → List Notification → List Text
external_ids job [] = []
external_ids job (n ∷ ns) =
    let rest = external_ids job ns in
    elim (alias_by_user job.recipients n.recipient_user_id) [
      | none ↦ rest
      | some alias ↦ alias ∷ rest
    ]

abbrev pub ids_of : List Notification → List ℕ
ids_of ns = map (λ n. n.id) ns

abbrev pub none_pushed : ℕ → BroadcastChunkResult
none_pushed inserted = record { inserted = inserted; pushed = false; recipients = 0 }

abbrev pub push_params : BroadcastChunkJob → List Text → SendPushParams
push_params job aliases = record {
  external_ids = aliases;
  title = job.title;
  body = job.body;
  url = job.deep_link;
  icon_url = job.icon_url;
  data_ = job.payload;
}

module _ (p : Ports) where
  -- Phase A: the rows that are missing are inserted.
  unfoldable pub persist : BroadcastChunkJob → Method p (List Notification)
  unfolding Repository.find_existing_by_broadcast Repository.bulk_insert truthy
  persist job = do
    let rows = map (to_row job) job.recipients
    to_insert ← gets λ w. elim (truthy job.broadcast_id) [
      | none ↦ rows
      | some broadcast_id ↦
          let existing =
            map (λ n. n.recipient_user_id)
              (Repository.find_existing_by_broadcast p.table broadcast_id (recipient_ids job)
                w.db) in
          filter (λ (row : NewNotification). not (in_array existing row.recipient_user_id)) rows
    ]
    insert p (Repository.bulk_insert p.table to_insert)

  -- The rows that a push is still due for.
  unfoldable pub pending_rows :
      BroadcastChunkJob → List Notification → p.table.Db → List Notification
  unfolding Repository.find_pending_by_broadcast truthy
  pending_rows job inserted db = elim (truthy job.broadcast_id) [
    | none ↦ inserted
    | some broadcast_id ↦
        Repository.find_pending_by_broadcast p.table broadcast_id (recipient_ids job) db
  ]

  abbrev mark : List ℕ → PushDeliveryStatus → Method p (Unit {0})
  unfolding Repository.mark_push_status_by_ids
  mark ids status = update p (λ now. Repository.mark_push_status_by_ids p.table now ids status)

  -- Phase B behind the push, on the provider's answer.
  unfoldable pub record_push :
      BroadcastChunkJob → ℕ → List Notification → SendPushResult → Method p BroadcastChunkResult
  unfolding mark
  record_push job inserted pending_ns result = elim (result.skipped) [
    | true ↦ mark (ids_of pending_ns) skipped >> pure (none_pushed inserted)
    | false ↦ elim (result.delivered) [
      | false ↦ throw (failure "Push failed")
      | true ↦
          let sent_ids = ids_of (filter (has_alias job) pending_ns) in
          mark sent_ids sent
          >> mark (filter (λ id. not (in_array sent_ids id)) (ids_of pending_ns)) skipped
          >> pure (record {
            inserted = inserted;
            pushed = true;
            recipients =
                or_default result.recipients
                  (length (external_ids job (filter (has_alias job) pending_ns)));
          })
    ]
  ]

  -- Phase B: one push to the aliases of the pending rows that have one.
  unfoldable pub deliver : BroadcastChunkJob → ℕ → List Notification → Method p BroadcastChunkResult
  unfolding mark record_push
  deliver job inserted pending_ns = elim (external_ids job (filter (has_alias job) pending_ns)) [
    | [] ↦ mark (ids_of pending_ns) skipped >> pure (none_pushed inserted)
    | alias ∷ aliases ↦
        send p (push_params job (alias ∷ aliases)) >>= record_push job inserted pending_ns
  ]

  unfoldable pub process : BroadcastChunkJob → Method p BroadcastChunkResult
  unfolding persist pending_rows deliver
  process job = do
    inserted ← persist job
    pending_ns ← gets (λ w. pending_rows job inserted w.db)
    deliver job (length inserted) pending_ns

  -- The handler of a failed attempt: `attempts` are the ones that the job has, 1 by default.
  unfoldable pub on_failed : ℕ → ℕ → BroadcastChunkJob → Method p (Unit {0})
  unfolding Repository.mark_broadcast_pending_failed truthy
  on_failed attempts_made attempts job = elim (truthy job.broadcast_id) [
    | none ↦ pure tt
    | some broadcast_id ↦ when (leb attempts attempts_made) (
        update p (λ now.
          Repository.mark_broadcast_pending_failed p.table broadcast_id (recipient_ids job)))
  ]
