-- ===== src/Dlq/Model.antt =====
-- The table `failed_events`: src/dlq/models.py.
use omnisync.Base.{ℕ, String, Option, Uuid, Timestamp}
use omnisync.Base.Json.{Json}

-- The texts that the code writes into the column `status`.
pub data Status : Type 0 where
  pending retrying exhausted resolved failed : Status

pub record FailedEvent : Type 0 where
  pub id : Uuid
  pub source : String
  pub operation : String
  pub correlation_id : Option String
  pub payload : Json
  pub error_text : String
  pub status : Status
  pub replay_attempts : ℕ
  pub created_at : Timestamp
  pub last_attempt_at : Option Timestamp
  pub next_retry_at : Option Timestamp
  pub resolved_at : Option Timestamp
