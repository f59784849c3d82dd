-- ===== src/Outbox/Model.antt =====
-- The table `outbox_events`: src/outbox/models.py. The payload is the dict that `enqueue_event`
-- builds; an id keeps its value where the source writes `str(id)`.
use omnisync.Base.{ℕ, String, Option, Uuid, Timestamp}

pub data Status : Type 0 where
  pending published dead : Status

pub record Payload : Type 0 where
  pub event_id : Uuid
  pub source : String
  pub external_id : String
  pub event_type : String
  pub content : String
  pub version : ℕ
  pub schema_version : ℕ

pub record OutboxEvent : Type 0 where
  pub id : Uuid
  pub aggregate_type : String
  pub aggregate_id : Uuid
  pub event_type : String
  pub payload : Payload
  pub status : Status
  pub attempts : ℕ
  pub last_error : Option String
  pub created_at : Timestamp
  pub published_at : Option Timestamp
