-- ===== src/RawPayloads/Model.antt =====
-- The table `raw_payloads`: src/raw_payloads/models.py.
use omnisync.Base.{String, Option, Uuid, Timestamp}
use omnisync.Base.Json.{Json}

pub record RawPayload : Type 0 where
  pub id : Uuid
  pub source : String
  pub payload : Option Json
  pub content_hash : Option String
  pub correlation_id : String
  pub received_at : Timestamp
  pub storage_url : Option String
