-- ===== src/Notifications/Inbox/Delivery.antt =====
-- One-off notifications: what `notifyUser` records of its push.
use nestjs_boilerplate.Base.{
  set_key, or_default, ℕ, ◌≡◌, Bool, true, false, Option, none, some, List, [], ◌∷◌, Text, codes,
  All, filter, ◌==◌,
}
use nestjs_boilerplate.Shared.Table.{TableLaws}
use nestjs_boilerplate.Shared.Otp.{to_string}
use nestjs_boilerplate.Notifications.Types.{
  Notification, NewNotification, SendPushParams, PushDeliveryStatus, pending, sent, failed, skipped,
  plain_text,
}
use nestjs_boilerplate.Notifications.Repository.{Fits}
use nestjs_boilerplate.Notifications.Ports.{Ports}
use nestjs_boilerplate.Notifications.Inbox.{NotifyUserParams}

module _ (p : Ports) (laws : TableLaws Fits p.table) (params : NotifyUserParams) where
  -- The push of the notification to an alias.
  abbrev pub push_of : Notification → Text → SendPushParams
  push_of n alias = record {
    external_ids = alias ∷ [];
    title = plain_text params.inbox.title;
    body = plain_text params.inbox.body;
    url = params.inbox.deep_link;
    icon_url = params.inbox.icon_url;
    data_ =
        some
          (set_key (codes "notificationId") (to_string n.id) (or_default params.inbox.payload []));
  }

  -- What the row says of a push, by whether the provider skipped it and whether it delivered it.
  abbrev pub status_for : Bool → Bool → PushDeliveryStatus
  status_for true delivered = skipped
  status_for false true = sent
  status_for false false = failed

  abbrev pub outcome : Notification → ℕ → Option Text → PushDeliveryStatus
  outcome n moment none = skipped
  outcome n moment (some alias) =
      let r = p.send_to_external_ids (push_of n alias) moment in status_for r.skipped r.delivered

  abbrev pub pushes_of : Notification → Option Text → List SendPushParams
  pushes_of n none = []
  pushes_of n (some alias) = push_of n alias ∷ []

  abbrev pub AllHave : ℕ → PushDeliveryStatus → List Notification → Type 0
  AllHave id status rows =
      All (λ (m : Notification). m.push_delivery_status ≡ some status)
        (filter (λ m. m.id == id) rows)

  abbrev new_row : NewNotification
  new_row = record {
    recipient_user_id = params.inbox.recipient_user_id;
    type = params.inbox.type;
    title = params.inbox.title;
    body = params.inbox.body;
    deep_link = params.inbox.deep_link;
    icon_url = params.inbox.icon_url;
    payload = or_default params.inbox.payload [];
    broadcast_id = params.inbox.broadcast_id;
    push_delivery_status = some pending;
  }

  -- The answered row: a new one of the parameters, whose push is still open.
  abbrev pub IsMade : Notification → Type 0
  IsMade n =
      (n.recipient_user_id ≡ params.inbox.recipient_user_id)
      × (n.broadcast_id ≡ params.inbox.broadcast_id)
      × (n.push_delivery_status ≡ some pending)
