-- ===== src/Dlq/Record.antt =====
-- `record_failure` and the reads of src/dlq/service.py.
pub mod Collapse
pub mod Effect
use omnisync.Base.{
  ℕ, suc, ◌+◌, Bool, true, false, ◌&&◌, String, Option, none, some, List, [], ◌∷◌, ◌++◌, ltb, ◌==◌,
  str_eq, if◌then◌else◌, select, first, take, cut, Uuid, Timestamp, tick, draw,
}
use omnisync.Base.Json.{Json}
use omnisync.Base.Keyset.{sort}
use omnisync.Base.Rows.{put}
use omnisync.Config.{Settings}
use omnisync.Session.{Session, commit, close}
use omnisync.Dlq.Model.{FailedEvent, Status, pending, retrying, exhausted, resolved, failed}
use omnisync.Dlq.Backoff.{compute_backoff}

-- `status.in_(ACTIVE_STATUSES)`
unfoldable pub is_active : Status → Bool
is_active pending = true
is_active retrying = true
is_active _ = false

-- The conditions of the query for a row to refresh.
unfoldable pub is_active_for : String → String → FailedEvent → Bool
unfolding is_active
is_active_for source operation f =
    str_eq f.source source && (str_eq f.operation operation && is_active f.status)

-- `ORDER BY created_at DESC`
abbrev pub newer : Timestamp → Timestamp → Bool
newer t t' = ltb t' t

unfoldable pub find_active : String → String → List FailedEvent → Option FailedEvent
unfolding is_active_for
find_active source operation rows =
    first (λ _. true)
      (sort newer (λ f. f.created_at) (select (is_active_for source operation) rows))

-- `if correlation_id:` the new one replaces the old.
correlation_or : Option String → Option String → Option String
correlation_or none old = old
correlation_or (some t) old = if str_eq t "" then old else some t

seeded : Settings → Timestamp → FailedEvent → Option Timestamp
seeded cfg now f = elim f.next_retry_at [
  | some t ↦ some t
  | none ↦ some (now + compute_backoff cfg f.replay_attempts)
]

unfoldable pub refresh :
    Settings → Timestamp → Json → String → Option String → FailedEvent → FailedEvent
unfolding correlation_or seeded
refresh cfg now payload error_text correlation_id f = record f {
  error_text = cut 2000 error_text;
  payload = payload;
  correlation_id = correlation_or correlation_id f.correlation_id;
  next_retry_at = seeded cfg now f;
}

-- The new row; `created` is the reading of the clock that its default takes at the flush.
unfoldable pub new_failure :
    Settings
    → Timestamp
    → Timestamp
    → Uuid
    → String
    → String
    → Json
    → String
    → Option String
    → FailedEvent
new_failure cfg now created i source operation payload error_text correlation_id = record {
  id = i;
  source = source;
  operation = operation;
  correlation_id = correlation_id;
  payload = payload;
  error_text = cut 2000 error_text;
  status = pending;
  replay_attempts = 0;
  created_at = created;
  last_attempt_at = none;
  next_retry_at = some (now + compute_backoff cfg 0);
  resolved_at = none;
}

unfoldable pub record_failure :
    Settings → String → String → Json → String → Option String → Session → Uuid × Session
unfolding find_active refresh new_failure
record_failure cfg source operation payload error_text correlation_id s =
    let now = s.world.clock 0 in
    let s' = record s { world = tick s.world } in
    elim (find_active source operation s.db.failed_events) [
      | some f ↦ (
        f.id,
        record s' {
          db = record s'.db {
            failed_events =
                put (λ r. r.id) (refresh cfg now payload error_text correlation_id f)
                  s'.db.failed_events;
          };
        },
      )
      | none ↦ (
        s'.world.uuids 0,
        record s' {
          db = record s'.db {
            failed_events =
                s'.db.failed_events
                ++ new_failure cfg now (s'.world.clock 0) (s'.world.uuids 0) source operation
                    payload error_text correlation_id
                  ∷ [];
          };
          world = tick (draw s'.world);
        },
      )
    ]

-- A session of its own, committed: for a task whose session was rolled back.
unfoldable pub record_failure_standalone :
    Settings → String → String → Json → String → Option String → Session → Session
unfolding record_failure
record_failure_standalone cfg source operation payload error_text correlation_id s =
    close (commit (record_failure cfg source operation payload error_text correlation_id s).1)

status_text : Status → String
status_text pending = "pending"
status_text retrying = "retrying"
status_text exhausted = "exhausted"
status_text resolved = "resolved"
status_text failed = "failed"

where_status : Option String → List FailedEvent → List FailedEvent
unfolding status_text
where_status none rows = rows
where_status (some t) rows =
    if str_eq t "" then rows else select (λ f. str_eq (status_text f.status) t) rows

unfoldable pub list_failed : Option String → ℕ → List FailedEvent → List FailedEvent
unfolding where_status
list_failed status limit rows =
    take limit (sort newer (λ f. f.created_at) (where_status status rows))

unfoldable pub get_failed : Uuid → List FailedEvent → Option FailedEvent
get_failed i = first (λ f. f.id == i)
