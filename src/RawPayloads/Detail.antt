-- ===== src/RawPayloads/Detail.antt =====
-- The endpoint of src/raw_payloads/router.py.
use omnisync.Base.{Bool, String, Option, none, some, is_some, Uuid, Timestamp}
use omnisync.Base.Json.{Json}
use omnisync.Auth.{Answer}
use omnisync.Auth.Model.{User}
use omnisync.Auth.Reply.{Reply, answered, not_found, as_user}
use omnisync.Session.{Store}
use omnisync.RawPayloads.Model.{RawPayload}
use omnisync.RawPayloads.{Backend, get_raw_payload, load_payload_content}

pub record RawPayloadDetailResponse : Type 0 where
  pub id : Uuid
  pub source : String
  pub correlation_id : String
  pub received_at : Timestamp
  pub stored_in_s3 : Bool
  pub content_hash : Option String
  pub payload : Option Json

unfoldable pub detail_of : Backend → RawPayload → RawPayloadDetailResponse
detail_of backend raw = record {
  id = raw.id;
  source = raw.source;
  correlation_id = raw.correlation_id;
  received_at = raw.received_at;
  stored_in_s3 = is_some raw.storage_url;
  content_hash = raw.content_hash;
  payload = load_payload_content backend raw;
}

-- A body that the object store does not give is an answer without a payload.
unfoldable pub read_raw_payload :
    Backend → Answer User → Uuid → Store → Reply RawPayloadDetailResponse
unfolding as_user detail_of
read_raw_payload backend user i db =
    as_user user (elim (get_raw_payload i db) [
      | none ↦ not_found
      | some raw ↦ answered (detail_of backend raw)
    ])
