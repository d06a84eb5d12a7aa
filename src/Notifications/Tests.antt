-- ===== src/Notifications/Tests.antt =====
-- Runs of the inbox and of a broadcast on concrete inputs.
use mathlib.Core.List.{Perm}
use nestjs_boilerplate.Base.{
  filter, ℕ, ◌+◌, ◌≡◌, refl, ◌==◌, ◌&&◌, Bool, true, false, Option, none, some, List, [], ◌∷◌, ◌++◌,
  map, length, All, Text, codes, ok, arith, text_eq,
}
use nestjs_boilerplate.Shared.Table.{TableLaws, map_where}
use nestjs_boilerplate.Shared.Table.Listed.{listed, listed-TableLaws}
use nestjs_boilerplate.Shared.Users.{truthy, column_eq}
use nestjs_boilerplate.Notifications.Types.{
  Notification, NewNotification, BroadcastRecipient, BroadcastChunkJob, BroadcastChunkResult,
  broadcast, plain_text,
}
use nestjs_boilerplate.Notifications.Repository.{
  Fits, NotificationTable, pending_of_chunk, set_failed,
}
use nestjs_boilerplate.Notifications.Ports.{Ports, World, QueuedJob}
use nestjs_boilerplate.Notifications.Inbox.{mark_read, unread_count, NotifyUserParams}
use nestjs_boilerplate.Notifications.Inbox.Reading.{mark_read_lem}
use nestjs_boilerplate.Shared.Pagination.{build_pagination_meta, page_of}
use nestjs_boilerplate.Notifications.Inbox.Listing.{
  ListForUserParams, list_for_user, to_notification_response,
}
use nestjs_boilerplate.Notifications.Inbox.Listing.Sorted.{
  IsNewestFirst, is_wanted, list_for_user_lem,
}
use nestjs_boilerplate.Notifications.Chunks.{EnqueueBroadcastParams, enqueue_broadcast, concat}
use nestjs_boilerplate.Notifications.Chunks.Laws.{recipients_of, IsChunk, enqueue_broadcast_lem}
use nestjs_boilerplate.Notifications.Broadcast.{
  process, persist, on_failed, none_pushed, to_row, alias_by_user,
}
use nestjs_boilerplate.Notifications.Broadcast.Retries.{due, process-process, on_failed_lem}

abbrev build : ℕ → NewNotification → Notification
build n new = record {
  id = n;
  recipient_user_id = new.recipient_user_id;
  type = new.type;
  title = new.title;
  body = new.body;
  deep_link = new.deep_link;
  icon_url = new.icon_url;
  payload = new.payload;
  broadcast_id = new.broadcast_id;
  push_delivery_status = new.push_delivery_status;
  push_sent_at = none;
  read_at = none;
  deleted_at = none;
  created_at = 0;
}

-- The unique index on the broadcast and the recipient.
abbrev same_column : Option Text → Option Text → Bool
same_column none column = false
same_column (some v) column = column_eq column v

abbrev clashes : NewNotification → Notification → Bool
clashes new n =
    same_column new.broadcast_id n.broadcast_id && (new.recipient_user_id == n.recipient_user_id)

abbrev table : NotificationTable
table = listed build clashes

table-TableLaws : TableLaws Fits table
table-TableLaws = listed-TableLaws build clashes Fits (λ n new. record {
  recipient_user_id = refl;
  broadcast_id = refl;
  push_delivery_status = refl;
  read_at = refl;
  deleted_at = refl;
})

-- A provider that delivers each push, and chunks of one recipient.
abbrev ports : Ports
ports = record {
  table = table;
  send_to_external_ids = λ params m. record {
    delivered = true;
    skipped = false;
    recipients = none;
    provider_message_id = none;
    error = none;
  };
  random_uuid = λ m. codes "uuid";
  chunk_size = some 1;
  queue_attempts = none;
  queue_backoff_ms = none;
}

abbrev start : World ports
start = record { db = record { serial = 1; list = [] }; moment = 7; pushes = []; queue = [] }

abbrev id : Text
id = codes "b1"

-- The second recipient has no alias.
abbrev first : BroadcastRecipient
first = record { user_id = 3; locale = codes "en"; push_external_id = some (codes "x3") }

abbrev second : BroadcastRecipient
second = record { user_id = 4; locale = codes "de"; push_external_id = none }

abbrev job : BroadcastChunkJob
job = record {
  broadcast_id = some id;
  type = broadcast;
  recipients = first ∷ second ∷ [];
  title = plain_text (codes "hi");
  body = plain_text (codes "there");
  deep_link = none;
  icon_url = none;
  payload = none;
}

given : truthy job.broadcast_id ≡ some id
unfolding truthy
given = refl

abbrev written : List Notification
written = build 1 (to_row job first) ∷ build 2 (to_row job second) ∷ []

-- The rows are there, and nothing was pushed.
abbrev inbox : World ports
inbox = record start { db = record { serial = 3; list = written } }

abbrev result : BroadcastChunkResult
result = record { inserted = 2; pushed = true; recipients = 1 }

processed : (process ports job start).0 ≡ ok result
unfolding process column_eq text_eq alias_by_user
processed = refl

process-process_example :
    let w' = (process ports job start).1 in
    process ports job w' ≡ (ok (none_pushed 0), record w' { moment = w'.moment + 1 })
process-process_example = process-process ports table-TableLaws job id given start result processed

persisted : (persist ports job start).0 ≡ ok written
unfolding persist column_eq text_eq
persisted = refl

on_failed_lem_example :
    let w' = (on_failed ports 3 3 job inbox).1 in
    (table.rows w'.db ≡ map_where (pending_of_chunk id (3 ∷ 4 ∷ [])) set_failed written)
    × (due ports table-TableLaws job id given w' ≡ [])
on_failed_lem_example = on_failed_lem ports table-TableLaws job id given 3 3 inbox

mark_read_lem_example :
    let (r, w') = mark_read ports 1 3 inbox in
    (r ≡ ok true)
    × ((mark_read ports 1 3 w').0 ≡ r)
    × (table.rows (mark_read ports 1 3 w').1.db ≡ table.rows w'.db)
    × ((unread_count ports 3 w').0 ≡ ok 0)
mark_read_lem_example = mark_read_lem ports table-TableLaws 1 3 inbox

-- The unread rows of the first recipient.
abbrev request : ListForUserParams
request = record { recipient_user_id = 3; page = 1; limit = 20; unread_only = true }

list_for_user_lem_example :
    (rows : List Notification) × (list_for_user ports request inbox ≡ (
      ok (record {
        data_ = map to_notification_response (page_of 1 20 rows);
        meta = build_pagination_meta (length rows) 1 20;
      }),
      inbox,
    ))
    × IsNewestFirst rows
    × Perm rows (filter (is_wanted request) written)
list_for_user_lem_example = list_for_user_lem ports table-TableLaws request inbox

abbrev params : EnqueueBroadcastParams
params = record {
  broadcast_id = none;
  type = broadcast;
  recipients = first ∷ second ∷ [];
  title = plain_text (codes "hi");
  body = plain_text (codes "there");
  deep_link = none;
  icon_url = none;
  payload = none;
}

enqueue_broadcast_lem_example :
    let (r, w') = enqueue_broadcast ports params start in
    (jobs : List QueuedJob) × (id' : Text) × (r
      ≡ ok (record { enqueued = length jobs; total_recipients = 2 }))
    × (w'.queue ≡ [] ++ jobs)
    × (concat (map (recipients_of ports (omega arith)) jobs) ≡ params.recipients)
    × All (IsChunk ports (omega arith) id') jobs
enqueue_broadcast_lem_example = enqueue_broadcast_lem ports (omega arith) params start

-- One notification to the first recipient.
abbrev single : NotifyUserParams
single = record {
  inbox = record {
    recipient_user_id = 3;
    type = broadcast;
    title = codes "hi";
    body = codes "there";
    deep_link = none;
    icon_url = none;
    payload = none;
    broadcast_id = none;
  };
  push_external_id = some (codes "x3");
}
