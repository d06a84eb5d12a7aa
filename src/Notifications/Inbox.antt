-- ===== src/Notifications/Inbox.antt =====
-- src/modules/platform/notifications/inbox/notification.service.ts: one-off notifications and the
-- reading of the inbox.
pub mod Reading
pub mod Delivery
pub mod Listing
use nestjs_boilerplate.Base.{
  or_default, set_key, ℕ, ◌+◌, Bool, true, false, Option, none, some, List, [], ◌∷◌, Text, codes,
  if◌then◌else◌, Result, ok, err, failure, Action, pure, throw, or_throw, gets, when, ◌>>=◌, ◌>>◌,
}
use nestjs_boilerplate.Shared.Users.{truthy}
use nestjs_boilerplate.Shared.Otp.{to_string}
use nestjs_boilerplate.Notifications.Types.{
  Notification, NewNotification, NotificationType, Payload, SendPushParams, SendPushResult,
  PushDeliveryStatus, pending, sent, failed, skipped, plain_text,
}
use nestjs_boilerplate.Notifications.Repository
use nestjs_boilerplate.Notifications.Ports.{Ports, World, Method, send, update, insert}

pub record PersistInboxParams : Type 0 where
  pub recipient_user_id : ℕ
  pub type : NotificationType
  pub title : Text
  pub body : Text
  pub deep_link : Option Text
  pub icon_url : Option Text
  pub payload : Option Payload
  pub broadcast_id : Option Text

-- NotifyUserParams: the parameters of the inbox row and the push alias.
pub record NotifyUserParams : Type 0 where
  pub inbox : PersistInboxParams
  pub push_external_id : Option Text

-- The outcome of a push as the status of the row.
abbrev pub status_of : SendPushResult → PushDeliveryStatus
status_of r = if r.skipped then skipped else if r.delivered then sent else failed

module _ (p : Ports) where
  unfoldable pub persist_inbox : PersistInboxParams → Method p Notification
  unfolding Repository.create
  persist_inbox params = do
    created ← insert p (
        Repository.create p.table (record {
          recipient_user_id = params.recipient_user_id;
          type = params.type;
          title = params.title;
          body = params.body;
          deep_link = params.deep_link;
          icon_url = params.icon_url;
          payload = or_default params.payload [];
          broadcast_id = params.broadcast_id;
          push_delivery_status = some pending;
        }))
    or_throw created (failure "Failed to insert notification row")

  abbrev push_one : NotifyUserParams → Notification → Option Text → Method p Notification
  unfolding Repository.mark_push_status_by_ids
  push_one params notification none = do
    update p (λ now. Repository.mark_push_status_by_ids p.table now (notification.id ∷ []) skipped)
    pure notification
  push_one params notification (some alias) = do
    result ← send p (record {
      external_ids = alias ∷ [];
      title = plain_text params.inbox.title;
      body = plain_text params.inbox.body;
      url = params.inbox.deep_link;
      icon_url = params.inbox.icon_url;
      data_ = some (
          set_key (codes "notificationId") (to_string notification.id)
            (or_default params.inbox.payload []));
    })
    update p (λ now.
        Repository.mark_push_status_by_ids p.table now (notification.id ∷ []) (status_of result))
    pure notification

  unfoldable pub notify_user : NotifyUserParams → Method p Notification
  unfolding persist_inbox truthy push_one
  notify_user params = do
    notification ← persist_inbox params.inbox
    push_one params notification (truthy params.push_external_id)

  unfoldable pub mark_read : ℕ → ℕ → Method p Bool
  unfolding Repository.mark_read Repository.exists_for_user
  mark_read id user w =
      let (updated, db) = Repository.mark_read p.table w.moment id user w.db in
      let w' : World p = record w { db = db; moment = w.moment + 1 } in
      (ok (if updated then true else Repository.exists_for_user p.table id user db), w')

  unfoldable pub unread_count : ℕ → Method p ℕ
  unfolding Repository.count_unread
  unread_count user = gets (λ w. Repository.count_unread p.table user w.db)
