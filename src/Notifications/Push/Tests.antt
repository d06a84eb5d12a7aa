-- ===== src/Notifications/Push/Tests.antt =====
-- A push whose first call is reset.
use nestjs_boilerplate.Base.{ℕ, zero, suc, ◌≡◌, refl, none, some, [], ◌∷◌, codes, text_eq}
use nestjs_boilerplate.Shared.Users.{truthy}
use nestjs_boilerplate.Notifications.Types.{SendPushParams, plain_text}
use nestjs_boilerplate.Notifications.Push.{
  Reply, response, rejected, PushPorts, PushWorld, OneSignalNotification, build_notification,
  internal_retry_attempts, send_to_external_ids, send_from, is_transient_error,
}
use nestjs_boilerplate.Notifications.Push.Attempts.{Decided, send_to_external_ids_lem}

abbrev replies : OneSignalNotification → ℕ → Reply
replies n zero = rejected (record {
  code = some (codes "ECONNRESET");
  status = none;
  http_code = none;
  message = codes "reset";
})
replies n (suc k) = response (some (codes "n1")) none

abbrev ports : PushPorts
ports = record {
  app_id = some (codes "app");
  rest_api_key = some (codes "key");
  create_notification = replies;
  wide_lower = λ s. s;
}

abbrev params : SendPushParams
params = record {
  external_ids = codes "x1" ∷ [];
  title = plain_text (codes "Hi");
  body = plain_text (codes "there");
  data_ = none;
  url = none;
  icon_url = none;
}

abbrev start : PushWorld
start = record { calls = []; delays = [] }

send_to_external_ids_lem_example :
    Decided ports
      (build_notification (codes "app") params)
      internal_retry_attempts
      start
      (send_to_external_ids ports params start)
unfolding truthy
send_to_external_ids_lem_example =
    send_to_external_ids_lem ports params (codes "app") (codes "key") start refl refl refl

send_to_external_ids_test :
    ((send_to_external_ids ports params start).0.recipients ≡ some 1)
    × ((send_to_external_ids ports params start).1.delays ≡ 250 ∷ [])
unfolding send_to_external_ids truthy send_from is_transient_error text_eq
send_to_external_ids_test = (refl, refl)
