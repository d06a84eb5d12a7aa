-- ===== src/Notifications/Chunks.antt =====
-- src/modules/platform/notifications/queue/notification-queue.service.ts: a broadcast is split into
-- chunks, one job each.
pub mod Laws
use nestjs_boilerplate.Base.{
  or_default, ℕ, zero, suc, ◌+◌, ◌-◌, ◌≤◌, ◌<◌, ◌≡◌, refl, ltb, Bool, true, false, Option, none,
  some, List, [], ◌∷◌, ◌++◌, map, take, drop, length, All, Text, if◌then◌else◌, Result, ok, err,
  arith, Action, pure, ◌>>=◌, ◌>>◌, modify, Bool-cases, inl, inr, ◌∙◌, ap, sym, length-append,
  Option-cases,
}
use nestjs_boilerplate.Notifications.Types.{
  NotificationType, BroadcastRecipient, LocalizedText, Payload, BroadcastChunkJob,
}
use nestjs_boilerplate.Notifications.Ports.{Ports, World, Method, QueuedJob, random_uuid}

pub record EnqueueBroadcastParams : Type 0 where
  pub broadcast_id : Option Text
  pub type : NotificationType
  pub recipients : List BroadcastRecipient
  pub title : LocalizedText
  pub body : LocalizedText
  pub deep_link : Option Text
  pub icon_url : Option Text
  pub payload : Option Payload

pub record EnqueueResult : Type 0 where
  pub enqueued : ℕ
  pub total_recipients : ℕ

-- `xs.slice(from, to)`
abbrev pub slice : {A : Type 0} → ℕ → ℕ → List A → List A
slice from to xs = take (to - from) (drop from xs)

-- `for (let i = from; i < recipients.length; i += size)`, on fuel.
unfoldable pub chunks : {A : Type 0} → ℕ → ℕ → ℕ → List A → List (List A)
chunks size zero from xs = []
chunks size (suc fuel) from xs =
    let rest = chunks size fuel (from + size) xs in
    if ltb from (length xs) then slice from (from + size) xs ∷ rest else []

abbrev pub to_job : EnqueueBroadcastParams → Text → List BroadcastRecipient → BroadcastChunkJob
to_job params broadcast_id recipients = record {
  broadcast_id = some broadcast_id;
  type = params.type;
  recipients = recipients;
  title = params.title;
  body = params.body;
  deep_link = params.deep_link;
  icon_url = params.icon_url;
  payload = params.payload;
}

module _ (p : Ports) where
  abbrev pub chunk_size : ℕ
  chunk_size = or_default p.chunk_size 500

  abbrev pub broadcast_id_of : Option Text → Method p Text
  broadcast_id_of none = random_uuid p
  broadcast_id_of (some id) = pure id

  abbrev pub to_queued : EnqueueBroadcastParams → Text → List BroadcastRecipient → QueuedJob
  to_queued params id recipients = record {
    data_ = to_job params id recipients;
    attempts = or_default p.queue_attempts 3;
    backoff_ms = or_default p.queue_backoff_ms 1000;
  }

  abbrev pub enqueue_all : EnqueueBroadcastParams → List BroadcastRecipient → Method p EnqueueResult
  enqueue_all params [] = pure (record { enqueued = 0; total_recipients = 0 })
  enqueue_all params (r ∷ rs) = do
    id ← broadcast_id_of params.broadcast_id
    let jobs = map (to_queued params id) (chunks chunk_size (length (r ∷ rs)) 0 (r ∷ rs))
    modify (λ w. record w { queue = w.queue ++ jobs })
    pure (record { enqueued = length jobs; total_recipients = length (r ∷ rs) })

  -- The number of recipients is fuel enough for the loop.
  unfoldable pub enqueue_broadcast : EnqueueBroadcastParams → Method p EnqueueResult
  unfolding chunks
  enqueue_broadcast params = enqueue_all params params.recipients

abbrev pub concat : {A : Type 0} → List (List A) → List A
concat [] = []
concat (xs ∷ xss) = xs ++ concat xss
