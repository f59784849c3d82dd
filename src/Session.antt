-- ===== src/Session.antt =====
-- A database session of src/database.py over the tables of src/models.py. A transaction works on
-- `db`; `committed` is what other sessions see, and what a rollback returns to. Every session
-- here runs alone between its first statement and its commit.
use omnisync.Base.{List, World}
use omnisync.Events.Model.{NormalizedEvent, EventVersion}
use omnisync.Outbox.Model.{OutboxEvent}
use omnisync.Dlq.Model.{FailedEvent}
use omnisync.RawPayloads.Model.{RawPayload}
use omnisync.SyncState.Model.{SyncState}
use omnisync.SyncLogs.Model.{SyncLog}
use omnisync.Webhooks.Model.{WebhookDelivery}
use omnisync.Auth.Model.{User}

-- The tables, each the list of its rows in the order of insertion.
pub record Store : Type 0 where
  pub events : List NormalizedEvent
  pub versions : List EventVersion
  pub outbox : List OutboxEvent
  pub raw_payloads : List RawPayload
  pub failed_events : List FailedEvent
  pub sync_states : List SyncState
  pub sync_logs : List SyncLog
  pub deliveries : List WebhookDelivery
  pub users : List User

pub record Session : Type 0 where
  pub committed : Store
  pub db : Store
  pub world : World

abbrev pub commit : Session → Session
commit s = record s { committed = s.db }

abbrev pub rollback : Session → Session
rollback s = record s { db = s.committed }

-- The end of `async with async_session()`: what was not committed is gone.
abbrev pub close : Session → Session
close s = record s { db = s.committed }
