-- ===== src/Notifications/Inbox/Listing.antt =====
-- The listing of the inbox: `findPage` of
-- src/modules/platform/notifications/inbox/notification.repository.ts, `listForUser` of
-- notification.service.ts and mappers/notification.mapper.ts.
pub mod Sorted
use nestjs_boilerplate.Base.{
  ℕ, ◌+◌, ◌==◌, ltb, ◌&&◌, ◌||◌, Bool, true, false, Option, List, [], ◌∷◌, map, length, Text,
  if◌then◌else◌, Result, ok, gets, ◌≡◌,
}
use nestjs_boilerplate.Shared.Pagination.{Paginated, paginate, page_of}
use nestjs_boilerplate.Notifications.Types.{
  Notification, NotificationType, Payload, PushDeliveryStatus,
}
use nestjs_boilerplate.Notifications.Repository.{NotificationTable, in_inbox, is_unread}
use nestjs_boilerplate.Notifications.Ports.{Ports, World, Method}

pub record ListForUserParams : Type 0 where
  pub recipient_user_id : ℕ
  pub page : ℕ
  pub limit : ℕ
  pub unread_only : Bool

pub record NotificationResponse : Type 0 where
  pub id : ℕ
  pub recipient_user_id : ℕ
  pub type : NotificationType
  pub title : Text
  pub body : Text
  pub deep_link : Option Text
  pub icon_url : Option Text
  pub payload : Payload
  pub broadcast_id : Option Text
  pub push_delivery_status : Option PushDeliveryStatus
  pub read_at : Option ℕ
  pub created_at : ℕ

abbrev pub to_notification_response : Notification → NotificationResponse
to_notification_response n = record {
  id = n.id;
  recipient_user_id = n.recipient_user_id;
  type = n.type;
  title = n.title;
  body = n.body;
  deep_link = n.deep_link;
  icon_url = n.icon_url;
  payload = n.payload;
  broadcast_id = n.broadcast_id;
  push_delivery_status = n.push_delivery_status;
  read_at = n.read_at;
  created_at = n.created_at;
}

-- `orderBy(desc(createdAt), desc(id))`: whether the first row comes before the second.
abbrev pub is_newer : Notification → Notification → Bool
is_newer m n = ltb n.created_at m.created_at || (m.created_at == n.created_at && ltb n.id m.id)

abbrev pub insert_newest : Notification → List Notification → List Notification
insert_newest n [] = n ∷ []
insert_newest n (m ∷ ms) = if is_newer m n then m ∷ insert_newest n ms else n ∷ m ∷ ms

abbrev pub newest_first : List Notification → List Notification
newest_first [] = []
newest_first (n ∷ ns) = insert_newest n (newest_first ns)

abbrev pub is_listed : ListForUserParams → Notification → Bool
is_listed params n =
    if params.unread_only
    then is_unread params.recipient_user_id n
    else in_inbox params.recipient_user_id n

-- A page is counted from 1, which the DTO demands; the rows of the page and the count of all rows.
unfoldable pub find_page :
    (t : NotificationTable) → ListForUserParams → t.Db → List Notification × ℕ
find_page t params db =
    let found = t.select_where (is_listed params) db in
    (page_of params.page params.limit (newest_first found), length found)

module _ (p : Ports) where
  unfoldable pub list_for_user : ListForUserParams → Method p (Paginated NotificationResponse)
  unfolding find_page paginate
  list_for_user params w =
      let (rows, total_count) = find_page p.table params w.db in
      (ok (paginate (map to_notification_response rows) total_count params.page params.limit), w)
