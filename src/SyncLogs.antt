-- ===== src/SyncLogs.antt =====
-- src/sync_logs/service.py: the log of a sync, in the session of the caller or in one of its own.
pub mod Model
use omnisync.Base.{String, Option, none, some, List, [], ◌∷◌, ◌++◌, ◌==◌, update, Uuid, draw, tick}
use omnisync.Base.Outcome.{Outcome, ok, raised}
use omnisync.Session.{Session, commit, rollback, close}
use omnisync.SyncLogs.Model.{SyncLog}

-- In a session that the caller owns: only flushed.
unfoldable pub create_sync_log : String → String → String → Session → Uuid × Session
create_sync_log correlation_id source status s = (
  s.world.uuids 0,
  record s {
    db = record s.db {
      sync_logs =
          s.db.sync_logs
          ++ record {
            id = s.world.uuids 0;
            correlation_id = correlation_id;
            source = source;
            status = status;
            error_text = none;
            created_at = s.world.clock 0;
          }
            ∷ [];
    };
    world = tick (draw s.world);
  },
)

-- With a session factory: a session of its own, committed and closed.
unfoldable pub create_sync_log_own : String → String → String → Session → Uuid × Session
unfolding create_sync_log
create_sync_log_own correlation_id source status s =
    let (i, s') = create_sync_log correlation_id source status s in (i, close (commit s'))

unfoldable pub update_sync_log_status : Uuid → String → Option String → Session → Session
update_sync_log_status log_id status error_text s = record s {
  db = record s.db {
    sync_logs =
        update (λ l. l.id == log_id) (λ l. record l { status = status; error_text = error_text })
          s.db.sync_logs;
  };
}

unfoldable pub update_sync_log_status_own : Uuid → String → Option String → Session → Session
unfolding update_sync_log_status
update_sync_log_status_own log_id status error_text s =
    close (commit (update_sync_log_status log_id status error_text s))

-- The end of a handler or of a task whose log is in the session of the run: the log is written
-- after the commit or the rollback, and the session is closed without another commit.
unfoldable pub settle_run {ℓ} : {A : Type ℓ} → Uuid → Outcome A × Session → Outcome A × Session
unfolding update_sync_log_status
settle_run log_id (ok a, s) =
    (ok a, close (update_sync_log_status log_id "completed" none (commit s)))
settle_run log_id (raised e, s) =
    (raised e, close (update_sync_log_status log_id "failed" (some e) (rollback s)))

-- The end of a task whose log has a session factory: each write of it commits in its own session.
unfoldable pub settle_run_own {ℓ} : {A : Type ℓ} → Uuid → Outcome A × Session → Outcome A × Session
unfolding update_sync_log_status_own
settle_run_own log_id (ok a, s) =
    (ok a, update_sync_log_status_own log_id "completed" none (commit s))
settle_run_own log_id (raised e, s) =
    (raised e, update_sync_log_status_own log_id "failed" (some e) (rollback s))
