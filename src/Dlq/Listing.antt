-- ===== src/Dlq/Listing.antt =====
-- The listing endpoint of src/dlq/router.py.
use omnisync.Base.{ℕ, String, Option, List, map, leb, ◌&&◌, if◌then◌else◌, Uuid, Timestamp}
use omnisync.Auth.{Answer}
use omnisync.Auth.Model.{User}
use omnisync.Auth.Reply.{Reply, answered, unprocessable, as_user}
use omnisync.Session.{Store}
use omnisync.Dlq.Model.{FailedEvent, Status}
use omnisync.Dlq.Record.{list_failed}

pub record FailedEventResponse : Type 0 where
  pub id : Uuid
  pub source : String
  pub operation : String
  pub correlation_id : Option String
  pub error_text : String
  pub status : Status
  pub replay_attempts : ℕ
  pub created_at : Timestamp
  pub last_attempt_at : Option Timestamp
  pub next_retry_at : Option Timestamp
  pub resolved_at : Option Timestamp

unfoldable pub failed_response : FailedEvent → FailedEventResponse
failed_response f = record {
  id = f.id;
  source = f.source;
  operation = f.operation;
  correlation_id = f.correlation_id;
  error_text = f.error_text;
  status = f.status;
  replay_attempts = f.replay_attempts;
  created_at = f.created_at;
  last_attempt_at = f.last_attempt_at;
  next_retry_at = f.next_retry_at;
  resolved_at = f.resolved_at;
}

unfoldable pub list_failed_events :
    Answer User → Option String → ℕ → Store → Reply (List FailedEventResponse)
unfolding as_user failed_response
list_failed_events user status limit db = as_user user (
    if leb 1 limit && leb limit 500
    then answered (map failed_response (list_failed status limit db.failed_events))
    else unprocessable)
