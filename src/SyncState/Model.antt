-- ===== src/SyncState/Model.antt =====
-- The table `sync_state`: src/sync_state/models.py.
use omnisync.Base.{String, Option, Uuid, Timestamp}

pub record SyncState : Type 0 where
  pub id : Uuid
  pub source : String
  pub stream : String
  pub cursor : Option String
  pub updated_at : Timestamp
