-- ===== src/Notifications/Types.antt =====
-- src/modules/platform/notifications/interfaces and queue/notification-broadcast.types.ts, and the
-- row of src/modules/shared/database/schema/notification.schema.ts. A JSON object is the list of
-- its keys with the texts of their values.
use nestjs_boilerplate.Base.{lookup, or_default, ℕ, Bool, Option, none, some, List, Text}

pub data NotificationType : Type 0 where
  transactional broadcast : NotificationType

pub data PushDeliveryStatus : Type 0 where
  pending sent failed skipped : PushDeliveryStatus

abbrev pub Payload : Type 0
Payload = List (Text × Text)

pub record LocalizedText : Type 0 where
  pub fallback : Text
  pub by_locale : Option (List (Text × Text))

abbrev override : Option (List (Text × Text)) → Text → Option Text
override none locale = none
override (some overrides) locale = lookup locale overrides

abbrev pub resolve_localized_text : LocalizedText → Text → Text
resolve_localized_text text locale = or_default (override text.by_locale locale) text.fallback

abbrev pub plain_text : Text → LocalizedText
plain_text value = record { fallback = value; by_locale = none }

pub record BroadcastRecipient : Type 0 where
  pub user_id : ℕ
  pub locale : Text
  pub push_external_id : Option Text

pub record BroadcastChunkJob : Type 0 where
  pub broadcast_id : Option Text
  pub type : NotificationType
  pub recipients : List BroadcastRecipient
  pub title : LocalizedText
  pub body : LocalizedText
  pub deep_link : Option Text
  pub icon_url : Option Text
  pub payload : Option Payload

pub record BroadcastChunkResult : Type 0 where
  pub inserted : ℕ
  pub pushed : Bool
  pub recipients : ℕ

-- A row of the table `notifications`.
pub record Notification : Type 0 where
  pub id : ℕ
  pub recipient_user_id : ℕ
  pub type : NotificationType
  pub title : Text
  pub body : Text
  pub deep_link : Option Text
  pub icon_url : Option Text
  pub payload : Payload
  pub broadcast_id : Option Text
  pub push_delivery_status : Option PushDeliveryStatus
  pub push_sent_at : Option ℕ
  pub read_at : Option ℕ
  pub deleted_at : Option ℕ
  pub created_at : ℕ

pub record NewNotification : Type 0 where
  pub recipient_user_id : ℕ
  pub type : NotificationType
  pub title : Text
  pub body : Text
  pub deep_link : Option Text
  pub icon_url : Option Text
  pub payload : Payload
  pub broadcast_id : Option Text
  pub push_delivery_status : Option PushDeliveryStatus

-- Parameters and outcome of one call of the push provider.
pub record SendPushParams : Type 0 where
  pub external_ids : List Text
  pub title : LocalizedText
  pub body : LocalizedText
  pub data_ : Option Payload
  pub url : Option Text
  pub icon_url : Option Text

pub record SendPushResult : Type 0 where
  pub delivered : Bool
  pub skipped : Bool
  pub recipients : Option ℕ
  pub provider_message_id : Option Text
  pub error : Option Text
