-- ===== src/Notifications/Repository.antt =====
-- src/modules/platform/notifications/inbox/notification.repository.ts, over the table of
-- notifications. `now` is the value of `new Date()`.
use nestjs_boilerplate.Base.{
  ℕ, ◌==◌, ◌≡◌, ◌&&◌, ltb, Bool, true, false, Option, none, some, List, [], ◌∷◌, head?, length, any,
  Text,
}
use nestjs_boilerplate.Shared.Table.{Table}
use nestjs_boilerplate.Shared.Users.{column_eq}
use nestjs_boilerplate.Notifications.Types.{
  Notification, NewNotification, PushDeliveryStatus, pending, sent, failed,
}

abbrev pub NotificationTable : Type 1
NotificationTable = Table Notification NewNotification

-- The columns of an inserted row that the inserted value gives, and those with a default.
pub record Fits (new : NewNotification) (n : Notification) : Type 0 where
  pub recipient_user_id : n.recipient_user_id ≡ new.recipient_user_id
  pub broadcast_id : n.broadcast_id ≡ new.broadcast_id
  pub push_delivery_status : n.push_delivery_status ≡ new.push_delivery_status
  pub read_at : n.read_at ≡ none
  pub deleted_at : n.deleted_at ≡ none

-- `inArray(column, ids)`
abbrev pub in_array : List ℕ → ℕ → Bool
in_array ids n = any (λ m. m == n) ids

-- `isNull(column)`
abbrev pub is_null : Option ℕ → Bool
is_null none = true
is_null (some _) = false

-- `eq(pushDeliveryStatus, PENDING)`
abbrev pub is_pending : Option PushDeliveryStatus → Bool
is_pending (some pending) = true
is_pending _ = false

abbrev pub of_chunk : Text → List ℕ → Notification → Bool
of_chunk broadcast_id ids n =
    column_eq n.broadcast_id broadcast_id && in_array ids n.recipient_user_id

abbrev pub pending_of_chunk : Text → List ℕ → Notification → Bool
pending_of_chunk broadcast_id ids n =
    of_chunk broadcast_id ids n && is_pending n.push_delivery_status

-- A row of the user's inbox, and an unread one.
abbrev pub in_inbox : ℕ → Notification → Bool
in_inbox user n = n.recipient_user_id == user && is_null n.deleted_at

abbrev pub is_unread : ℕ → Notification → Bool
is_unread user n = in_inbox user n && is_null n.read_at

abbrev pub set_failed : Notification → Notification
set_failed n = record n { push_delivery_status = some failed }

abbrev sent_at : PushDeliveryStatus → ℕ → Option ℕ
sent_at sent now = some now
sent_at _ now = none

abbrev pub set_status : ℕ → PushDeliveryStatus → Notification → Notification
set_status now status n = record n {
  push_delivery_status = some status;
  push_sent_at = sent_at status now;
}

abbrev pub set_read : ℕ → Notification → Notification
set_read now n = record n { read_at = some now }

-- Where the list is empty no statement is run.
abbrev unless_empty : {A B : Type 0} → List A → B → B → B
unless_empty [] b c = b
unless_empty (_ ∷ _) b c = c

module _ (t : NotificationTable) where
  -- The reply to an insert of one row is its first row.
  unfoldable pub create : NewNotification → t.Db → Option (Option Notification × t.Db)
  create new db = elim (t.insert (new ∷ []) db) [
    | none ↦ none
    | some (added, db') ↦ some (head? added, db')
  ]

  unfoldable pub bulk_insert : List NewNotification → t.Db → Option (List Notification × t.Db)
  bulk_insert rows db = unless_empty rows (some ([], db)) (t.insert rows db)

  unfoldable pub find_existing_by_broadcast : Text → List ℕ → t.Db → List Notification
  find_existing_by_broadcast broadcast_id ids db =
      unless_empty ids [] (t.select_where (of_chunk broadcast_id ids) db)

  unfoldable pub find_pending_by_broadcast : Text → List ℕ → t.Db → List Notification
  find_pending_by_broadcast broadcast_id ids db =
      unless_empty ids [] (t.select_where (pending_of_chunk broadcast_id ids) db)

  unfoldable pub mark_broadcast_pending_failed : Text → List ℕ → t.Db → t.Db
  mark_broadcast_pending_failed broadcast_id ids db =
      unless_empty ids db (t.update_where (pending_of_chunk broadcast_id ids) set_failed db).1

  unfoldable pub exists_for_user : ℕ → ℕ → t.Db → Bool
  exists_for_user id user db =
      ltb 0 (length (t.select_where (λ n. n.id == id && in_inbox user n) db))

  unfoldable pub count_unread : ℕ → t.Db → ℕ
  count_unread user db = length (t.select_where (is_unread user) db)

  unfoldable pub mark_read : ℕ → ℕ → ℕ → t.Db → Bool × t.Db
  mark_read now id user db =
      let (updated, db') = t.update_where (λ n. n.id == id && is_unread user n) (set_read now) db in
      (ltb 0 (length updated), db')

  unfoldable pub mark_push_status_by_ids : ℕ → List ℕ → PushDeliveryStatus → t.Db → t.Db
  mark_push_status_by_ids now ids status db =
      unless_empty ids db (t.update_where (λ n. in_array ids n.id) (set_status now status) db).1
