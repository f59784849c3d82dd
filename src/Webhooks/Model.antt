-- ===== src/Webhooks/Model.antt =====
-- The table `webhook_deliveries`: src/webhooks/models.py.
use omnisync.Base.{String, Option, Uuid, Timestamp}

pub record WebhookDelivery : Type 0 where
  pub id : Uuid
  pub source : String
  pub delivery_id : String
  pub status : String
  pub error_text : Option String
  pub received_at : Timestamp
