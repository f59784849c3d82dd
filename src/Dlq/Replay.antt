-- ===== src/Dlq/Replay.antt =====
-- The manual replay of src/dlq/router.py, with `mark_resolved` and `mark_replay_failed` of
-- src/dlq/service.py.
pub mod Effect
use omnisync.Base.{
  ℕ, ◌+◌, Bool, true, false, String, Option, none, some, List, if◌then◌else◌, cut, Uuid, Timestamp,
  tick,
}
use omnisync.Base.Rows.{put}
use omnisync.Session.{Session, commit, close}
use omnisync.Dlq.Model.{FailedEvent, Status, resolved, failed}
use omnisync.Dlq.Record.{get_failed}
use omnisync.Dlq.Retry.{Broker}

unfoldable pub mark_resolved : Timestamp → FailedEvent → FailedEvent
mark_resolved now f = record f { status = resolved; next_retry_at = none; resolved_at = some now }

unfoldable pub mark_replay_failed : String → FailedEvent → FailedEvent
mark_replay_failed error f = record f {
  replay_attempts = f.replay_attempts + 1;
  error_text = cut 2000 error;
  status = failed;
}

-- `broker_error` is the exception of `send_task`, the answer 500.
pub data ReplayResult : Type 0 where
  replayed : Uuid → ReplayResult
  event_not_found : ReplayResult
  broker_error : ReplayResult

unfoldable pub replay_failed_event : Broker → Uuid → Session → ReplayResult × Session
unfolding mark_resolved
replay_failed_event send_task i s = elim (get_failed i s.db.failed_events) [
  | none ↦ (event_not_found, close s)
  | some f ↦
      if send_task f.id f.operation
      then (let row =
            mark_resolved (s.world.clock 0)
              (record f { replay_attempts = f.replay_attempts + 1 }) in
          (
            replayed i,
            commit (record s {
              db = record s.db { failed_events = put (λ r. r.id) row s.db.failed_events };
              world = tick s.world;
            }),
          ))
      else (broker_error, close s)
]
