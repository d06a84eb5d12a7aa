-- ===== src/Notifications/Ports.antt =====
-- What the notification services are built over: the table of notifications, the push provider
-- (`PUSH_SENDER`), the random source and the configuration; and the state that they change.
use nestjs_boilerplate.Base.{ℕ, ◌+◌, Option, none, some, List, ◌∷◌, Text, ok, err, failure, Action}
use nestjs_boilerplate.Notifications.Types.{SendPushParams, SendPushResult, BroadcastChunkJob}
use nestjs_boilerplate.Notifications.Repository.{NotificationTable}

-- The configuration's numbers are validated at the start, `none` is a missing one.
pub record Ports : Type 1 where
  pub table : NotificationTable
  pub send_to_external_ids : SendPushParams → ℕ → SendPushResult
  pub random_uuid : ℕ → Text
  pub chunk_size : Option ℕ
  pub queue_attempts : Option ℕ
  pub queue_backoff_ms : Option ℕ

-- A job with its `attempts` and backoff delay.
pub record QueuedJob : Type 0 where
  pub data_ : BroadcastChunkJob
  pub attempts : ℕ
  pub backoff_ms : ℕ

module _ (p : Ports) where
  pub record World : Type 0 where
    pub db : p.table.Db
    pub moment : ℕ
    -- what was sent to the provider, the newest first, and what was added to the queue
    pub pushes : List SendPushParams
    pub queue : List QueuedJob

module _ (p : Ports) where
  abbrev pub Method : Type 0 → Type 0
  Method A = Action (World p) A

  abbrev pub send : SendPushParams → Method SendPushResult
  send params w = (
    ok (p.send_to_external_ids params w.moment),
    record w { moment = w.moment + 1; pushes = params ∷ w.pushes },
  )

  -- An update of the table, and an insert, which a unique index may refuse.
  abbrev pub update : (ℕ → p.table.Db → p.table.Db) → Method (Unit {0})
  update f w = (ok tt, record w { db = f w.moment w.db; moment = w.moment + 1 })

  abbrev pub insert : {A : Type 0} → (p.table.Db → Option (A × p.table.Db)) → Method A
  insert f w = elim (f w.db) [
    | none ↦ (err (failure "duplicate key value violates unique constraint"), w)
    | some (a, db) ↦ (ok a, record w { db = db })
  ]

  abbrev pub random_uuid : Method Text
  random_uuid w = (ok (p.random_uuid w.moment), record w { moment = w.moment + 1 })
