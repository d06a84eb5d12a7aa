-- ===== src/Notifications/Push.antt =====
-- src/modules/platform/notifications/push: one-signal-push.sender.ts and push-retry.util.ts.
pub mod Attempts
mod Tests
use nestjs_boilerplate.Base.{
  ℕ, zero, suc, ◌+◌, ◌-◌, ◌*◌, ◌^◌, ◌==◌, leb, ◌||◌, Bool, true, false, Option, none, some, List,
  [], ◌∷◌, map, length, includes, has, lookup, set_key, or_default, Text, codes, if◌then◌else◌,
}
use nestjs_boilerplate.Auth.Normalize.{to_lower_case}
use nestjs_boilerplate.Shared.Users.{truthy}
use nestjs_boilerplate.Notifications.Types.{LocalizedText, Payload, SendPushParams, SendPushResult}

-- The shape of an error that is looked at.
pub record ClientError : Type 0 where
  pub code : Option Text
  pub status : Option ℕ
  pub http_code : Option ℕ
  pub message : Text

-- What a call of the client ends with.
pub data Reply : Type 0 where
  response : Option Text → Option ℕ → Reply
  rejected : ClientError → Reply

pub record OneSignalNotification : Type 0 where
  pub app_id : Text
  pub target_channel : Text
  pub external_ids : List Text
  pub contents : List (Text × Text)
  pub headings : List (Text × Text)
  pub data_ : Option Payload
  pub url : Option Text
  pub large_icon : Option Text
  pub chrome_web_icon : Option Text

-- The configuration, and the client, whose reply may depend on how many calls were made before.
pub record PushPorts : Type 0 where
  pub app_id : Option Text
  pub rest_api_key : Option Text
  pub create_notification : OneSignalNotification → ℕ → Reply
  pub wide_lower : Text → Text

-- The calls that were made and the delays that were slept, the newest first.
pub record PushWorld : Type 0 where
  pub calls : List OneSignalNotification
  pub delays : List ℕ

abbrev pub transient_codes : List Text
transient_codes =
    codes "ECONNRESET" ∷ codes "ETIMEDOUT" ∷ codes "EAI_AGAIN" ∷ codes "ECONNREFUSED" ∷ []

abbrev pub has_transient_code : Option Text → Bool
has_transient_code none = false
has_transient_code (some code) = has code transient_codes

abbrev pub first_number : Option ℕ → Option ℕ → Option ℕ
first_number none other = other
first_number (some n) other = some n

unfoldable pub is_transient_error : (Text → Text) → ClientError → Bool
is_transient_error wide e = elim (has_transient_code e.code) [
  | true ↦ true
  | false ↦ elim (first_number e.status e.http_code) [
    | some status ↦ status == 429 || leb 500 status
    | none ↦
        includes (codes "timeout") (to_lower_case wide e.message)
        || includes (codes "socket hang up") (to_lower_case wide e.message)
  ]
]

abbrev pub internal_retry_attempts : ℕ
internal_retry_attempts = 2

abbrev pub internal_retry_backoff_ms : ℕ
internal_retry_backoff_ms = 250

abbrev pub onesignal_required_lang : Text
onesignal_required_lang = codes "en"

unfoldable pub to_lang_map : LocalizedText → List (Text × Text)
to_lang_map text = filled (truthy_entry (lookup onesignal_required_lang texts))
  where
    texts : List (Text × Text)
    texts = or_default text.by_locale []

    truthy_entry : Option Text → Option Text
    truthy_entry none = none
    truthy_entry (some s) = truthy (some s)

    filled : Option Text → List (Text × Text)
    filled none = set_key onesignal_required_lang text.fallback texts
    filled (some s) = texts

abbrev pub skipped_result : SendPushResult
skipped_result = record {
  delivered = false;
  skipped = true;
  recipients = none;
  provider_message_id = none;
  error = none;
}

abbrev pub failed_result : ClientError → SendPushResult
failed_result e = record {
  delivered = false;
  skipped = false;
  recipients = none;
  provider_message_id = none;
  error = some e.message;
}

-- The answer to a response, for the number of aliases.
abbrev pub response_result : ℕ → Option Text → Option ℕ → SendPushResult
response_result aliases id (some zero) = skipped_result
response_result aliases id (some (suc n)) = record {
  delivered = true;
  skipped = false;
  recipients = some (suc n);
  provider_message_id = id;
  error = none;
}
response_result aliases id none = record {
  delivered = true;
  skipped = false;
  recipients = some aliases;
  provider_message_id = id;
  error = none;
}

abbrev pub build_notification : Text → SendPushParams → OneSignalNotification
build_notification app_id params = record {
  app_id = app_id;
  target_channel = codes "push";
  external_ids = params.external_ids;
  contents = to_lang_map params.body;
  headings = to_lang_map params.title;
  data_ = params.data_;
  url = truthy params.url;
  large_icon = truthy params.icon_url;
  chrome_web_icon = truthy params.icon_url;
}

module _ (p : PushPorts) where
  abbrev pub called : OneSignalNotification → PushWorld → PushWorld
  called n w = record w { calls = n ∷ w.calls }

  -- `sleep(INTERNAL_RETRY_BACKOFF_MS * 2 ** attempt)`, with so many attempts left.
  abbrev pub slept : ℕ → PushWorld → PushWorld
  slept left w = record w {
    delays = internal_retry_backoff_ms * 2 ^ (internal_retry_attempts - left) ∷ w.delays;
  }

  -- The loop, with `left` attempts after this one.
  unfoldable pub send_from : ℕ → OneSignalNotification → PushWorld → SendPushResult × PushWorld
  send_from zero n w = elim (p.create_notification n (length w.calls)) [
    | response id recipients ↦ (response_result (length n.external_ids) id recipients, called n w)
    | rejected e ↦ (failed_result e, called n w)
  ]
  send_from (suc left) n w =
      let again = send_from left n in
      elim (p.create_notification n (length w.calls)) [
        | response id recipients ↦
            (response_result (length n.external_ids) id recipients, called n w)
        | rejected e ↦ elim (is_transient_error p.wide_lower e) [
          | true ↦ again (slept (suc left) (called n w))
          | false ↦ (failed_result e, called n w)
        ]
      ]

  -- `onModuleInit`: the app id of a sender that is enabled.
  abbrev pub enabled_app : Option Text → Option Text → Option Text
  enabled_app (some app_id) (some key) = some app_id
  enabled_app _ _ = none

  abbrev pub send_as : Option Text → SendPushParams → PushWorld → SendPushResult × PushWorld
  send_as none params w = (skipped_result, w)
  send_as (some app_id) params w =
      if length params.external_ids == 0
      then (skipped_result, w)
      else send_from internal_retry_attempts (build_notification app_id params) w

  unfoldable pub send_to_external_ids : SendPushParams → PushWorld → SendPushResult × PushWorld
  send_to_external_ids params w =
      send_as (enabled_app (truthy p.app_id) (truthy p.rest_api_key)) params w
