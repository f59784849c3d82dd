-- ===== src/SyncLogs/Model.antt =====
-- The table `sync_logs`: src/sync_logs/models.py.
use omnisync.Base.{String, Option, Uuid, Timestamp}

pub record SyncLog : Type 0 where
  pub id : Uuid
  pub correlation_id : String
  pub source : String
  pub status : String
  pub error_text : Option String
  pub created_at : Timestamp
