-- ===== src/Events/Model.antt =====
-- The tables `normalized_events` and `event_versions`, and the input of an upsert:
-- src/events/models.py, src/events/audit_models.py, src/events/schemas.py.
use omnisync.Base.{ℕ, String, Option, Uuid, Timestamp}

pub record NormalizedEvent : Type 0 where
  pub id : Uuid
  pub external_id : String
  pub source : String
  pub author_id : String
  pub author_name : String
  pub content : String
  pub event_type : String
  pub timestamp : Timestamp
  pub raw_payload_id : Option Uuid
  pub created_at : Timestamp
  pub updated_at : Timestamp
  pub version : ℕ
  pub schema_version : ℕ

pub record EventVersion : Type 0 where
  pub id : Uuid
  pub event_id : Uuid
  pub version : ℕ
  pub content : String
  pub schema_version : ℕ
  pub raw_payload_id : Option Uuid
  pub changed_by : Option String
  pub changed_at : Timestamp

abbrev pub content_schema_version : ℕ
content_schema_version = 1

pub record NormalizedEventCreate : Type 0 where
  pub external_id : String
  pub source : String
  pub author_id : String
  pub author_name : String
  pub content : String
  pub event_type : String
  pub timestamp : Timestamp
  pub raw_payload_id : Option Uuid
  pub schema_version : ℕ
