-- ===== src/Dlq/Retry.antt =====
-- The retrier: `fetch_due_retries` and `mark_retry_scheduled` of src/dlq/service.py, and
-- src/dlq/tasks.py.
pub mod Scan
pub mod Effect
pub mod Queue
use omnisync.Base.{
  ℕ, zero, suc, ◌+◌, Bool, true, false, not, ◌&&◌, String, Option, none, some, List, [], ◌∷◌, ltb,
  leb, if◌then◌else◌, select, take, Uuid, Timestamp, tick,
}
use omnisync.Base.Keyset.{sort}
use omnisync.Base.Rows.{put}
use omnisync.Config.{Settings}
use omnisync.Session.{Session, commit}
use omnisync.Dlq.Model.{FailedEvent, Status, retrying, exhausted}
use omnisync.Dlq.Backoff.{compute_backoff}
use omnisync.Dlq.Record.{is_active}

unfoldable pub is_due : Timestamp → Option Timestamp → Bool
is_due now none = true
is_due now (some t) = leb t now

-- `next_retry_at ASC NULLS FIRST`
unfoldable pub sooner : Option Timestamp → Option Timestamp → Bool
sooner none none = false
sooner none (some _) = true
sooner (some _) none = false
sooner (some t) (some t') = ltb t t'

retry_limit : Settings → Option ℕ → ℕ
retry_limit cfg none = cfg.dlq_retry_batch_size
retry_limit cfg (some zero) = cfg.dlq_retry_batch_size
retry_limit cfg (some (suc n)) = suc n

unfoldable pub can_retry : Settings → Timestamp → FailedEvent → Bool
unfolding is_due
can_retry cfg now f =
    is_active f.status
    && (ltb f.replay_attempts cfg.dlq_max_replay_attempts && is_due now f.next_retry_at)

-- Rows that another worker has locked are skipped.
unfoldable pub fetch_due_retries :
    Settings → Timestamp → Option ℕ → (Uuid → Bool) → List FailedEvent → List FailedEvent
unfolding can_retry sooner retry_limit
fetch_due_retries cfg now limit locked rows = take (retry_limit cfg limit) (
    sort sooner (λ f. f.next_retry_at)
      (select (λ f. can_retry cfg now f && not (locked f.id)) rows))

unfoldable pub mark_retry_scheduled : Settings → Timestamp → FailedEvent → FailedEvent
mark_retry_scheduled cfg now f =
    let attempts = f.replay_attempts + 1 in
    if leb cfg.dlq_max_replay_attempts attempts
    then record f {
      replay_attempts = attempts;
      last_attempt_at = some now;
      status = exhausted;
      next_retry_at = none;
    }
    else record f {
      replay_attempts = attempts;
      last_attempt_at = some now;
      status = retrying;
      next_retry_at = some (now + compute_backoff cfg attempts);
    }

-- `celery_app.send_task(operation)` for an entry: whether the broker took it.
abbrev pub Broker : Type 0
Broker = Uuid → String → Bool

-- The body of the loop; where the broker fails the entry is left for the next scan.
unfoldable pub retry_one : Settings → Broker → FailedEvent → Session → Session
unfolding mark_retry_scheduled
retry_one cfg send_task f s =
    if send_task f.id f.operation
    then record s {
      db = record s.db {
        failed_events =
            put (λ r. r.id) (mark_retry_scheduled cfg (s.world.clock 0) f) s.db.failed_events;
      };
      world = tick s.world;
    }
    else s

unfoldable pub retry_all : Settings → Broker → List FailedEvent → Session → Session
unfolding retry_one
retry_all cfg send_task [] s = s
retry_all cfg send_task (f ∷ fs) s = retry_all cfg send_task fs (retry_one cfg send_task f s)

count_dispatched : Broker → List FailedEvent → ℕ
count_dispatched send_task [] = 0
count_dispatched send_task (f ∷ fs) =
    let rest = count_dispatched send_task fs in
    if send_task f.id f.operation then rest + 1 else rest

abbrev pub due_batch : Settings → (Uuid → Bool) → Session → List FailedEvent
due_batch cfg locked s = fetch_due_retries cfg (s.world.clock 0) none locked s.db.failed_events

unfoldable pub process_due_retries : Settings → (Uuid → Bool) → Broker → Session → ℕ × Session
unfolding fetch_due_retries retry_all count_dispatched
process_due_retries cfg locked send_task s =
    let due = due_batch cfg locked s in
    (
      count_dispatched send_task due,
      retry_all cfg send_task due (record s { world = tick s.world }),
    )

unfoldable pub retry_failed_events : Settings → (Uuid → Bool) → Broker → Session → ℕ × Session
unfolding process_due_retries
retry_failed_events cfg locked send_task s =
    if cfg.dlq_retry_enabled
    then (let (dispatched, s') = process_due_retries cfg locked send_task s in
        (dispatched, commit s'))
    else (0, s)
