-- ===== src/Dlq/Tests.antt =====
-- Concrete runs of the dead-letter queue.
use omnisync.Base.{
  ◌+◌, ◌*◌, ◌≤◌, ◌≡◌, ◌≢◌, ◌⊎◌, refl, min, none, some, List, [], ◌∷◌, arith, Bool, true, false,
  second, Uuid, Timestamp,
}
use omnisync.Base.Json.{Json}
use omnisync.Base.Rows.{find}
use omnisync.Config.{default_settings}
use omnisync.Session.{Session, Store}
use omnisync.Dlq.Model.{FailedEvent, Status}
use omnisync.Dlq.Backoff.{compute_backoff, compute_backoff_lem}
use omnisync.Dlq.Record.{find_active, record_failure}
use omnisync.Dlq.Record.Collapse.{failed_id, IsQueue, record_failure-IsQueue}
use omnisync.Dlq.Record.Effect.{IsRecordOf, record_failure-IsRecordOf}
use omnisync.Dlq.Retry.{Broker, due_batch, process_due_retries}
use omnisync.Dlq.Retry.Effect.{IsRetriable, IsRetried, process_due_retries_row}
use omnisync.Dlq.Retry.Queue.{process_due_retries-IsQueue}
use omnisync.Dlq.Replay.{replayed, event_not_found, broker_error, replay_failed_event}
use omnisync.Dlq.Replay.Effect.{replayed_row, replay_failed_event_lem}

abbrev sync_failure : FailedEvent
sync_failure = record {
  id = 5;
  source = "github";
  operation = "sync_github";
  correlation_id = none;
  payload = Json.null;
  error_text = "timeout";
  status = Status.pending;
  replay_attempts = 4;
  created_at = 60;
  last_attempt_at = none;
  next_retry_at = some 100;
  resolved_at = none;
}

abbrev tables : List FailedEvent → Store
tables rows = record {
  events = [];
  versions = [];
  outbox = [];
  raw_payloads = [];
  failed_events = rows;
  sync_states = [];
  sync_logs = [];
  deliveries = [];
  users = [];
}

abbrev one_failure : Session
one_failure = record {
  committed = tables (sync_failure ∷ []);
  db = tables (sync_failure ∷ []);
  world = record { uuids = λ n. n + 100; clock = λ n. n + 1000 };
}

abbrev takes_all : Broker
takes_all _ _ = true

abbrev nobody_else : Uuid → Bool
nobody_else _ = false

one_failure-IsQueue : IsQueue one_failure.db.failed_events
one_failure-IsQueue = record { ids = (tt, tt); collapsed = λ source operation. ground arith }

compute_backoff_lem_example :
    (compute_backoff default_settings 0 ≡ min 60 3600 * second)
    × (compute_backoff default_settings 3
        ≡ min (2 * compute_backoff default_settings 2) (3600 * second))
    × (compute_backoff default_settings 2 ≤ 3600 * second)
    × (compute_backoff default_settings 2 ≤ compute_backoff default_settings (2 + 5))
compute_backoff_lem_example = compute_backoff_lem default_settings 2 5

record_failure-IsQueue_example :
    IsQueue
      (record_failure default_settings "github" "sync_github" Json.null "refused" none
        one_failure).1.db.failed_events
record_failure-IsQueue_example =
    record_failure-IsQueue default_settings "github" "sync_github" Json.null "refused" none
      one_failure (omega arith, tt) one_failure-IsQueue

record_failure-IsRecordOf_example :
    let (i, s') =
      record_failure default_settings "github" "sync_github" Json.null "refused" none one_failure in
    ((row : FailedEvent) × (find failed_id i s'.db.failed_events ≡ some row)
      × IsRecordOf default_settings 1000 "github" "sync_github" Json.null "refused" none
          (find_active "github" "sync_github" (sync_failure ∷ []))
          row)
    × ((j : Uuid)
        → j ≢ i
        → find failed_id j s'.db.failed_events ≡ find failed_id j (sync_failure ∷ []))
record_failure-IsRecordOf_example =
    record_failure-IsRecordOf default_settings "github" "sync_github" Json.null "refused" none
      one_failure (tt, tt) (omega arith, tt)

process_due_retries_row_example :
    let after =
      (process_due_retries default_settings nobody_else takes_all one_failure).1.db.failed_events in
    ((find failed_id 5 (due_batch default_settings nobody_else one_failure) ≡ none)
      × (find failed_id 5 after ≡ some sync_failure))
    ⊎ ((find failed_id 5 (due_batch default_settings nobody_else one_failure) ≡ some sync_failure)
        × IsRetriable default_settings 1000 sync_failure
        × (nobody_else 5 ≡ false)
        × (((true ≡ false) × (find failed_id 5 after ≡ some sync_failure))
            ⊎ ((takes_all 5 "sync_github" ≡ true)
                × (now : Timestamp) × (g : FailedEvent) × (find failed_id 5 after ≡ some g)
                × IsRetried default_settings now sync_failure g)))
process_due_retries_row_example =
    process_due_retries_row default_settings nobody_else takes_all one_failure 5 {f = sync_failure}
      (tt, tt) refl

process_due_retries-IsQueue_example :
    IsQueue
      (process_due_retries default_settings nobody_else takes_all one_failure).1.db.failed_events
process_due_retries-IsQueue_example =
    process_due_retries-IsQueue default_settings nobody_else takes_all one_failure
      one_failure-IsQueue

replay_failed_event_lem_example :
    let (answer, s') = replay_failed_event takes_all 5 one_failure in
    IsQueue s'.committed.failed_events
    × (((find failed_id 5 (sync_failure ∷ []) ≡ none)
          × (answer ≡ event_not_found)
          × (s'.committed ≡ one_failure.committed))
        ⊎ ((f : FailedEvent) × (find failed_id 5 (sync_failure ∷ []) ≡ some f)
            × (((takes_all 5 f.operation ≡ false)
                  × (answer ≡ broker_error)
                  × (s'.committed ≡ one_failure.committed))
                ⊎ ((takes_all 5 f.operation ≡ true)
                    × (answer ≡ replayed 5)
                    × (find failed_id 5 s'.committed.failed_events ≡ some (replayed_row 1000 f))
                    × ((j : Uuid)
                        → j ≢ 5
                        → find failed_id j s'.committed.failed_events
                          ≡ find failed_id j (sync_failure ∷ []))))))
replay_failed_event_lem_example =
    replay_failed_event_lem takes_all 5 one_failure refl one_failure-IsQueue
