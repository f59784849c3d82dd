-- ===== src/Tasks.antt =====
-- What the Celery tasks that poll a source share, src/github/tasks.py, src/telegram/tasks.py and
-- src/imap/tasks.py: the log of a run in sessions of its own, and the rule for the dead-letter queue.
-- Whether an exception is one of `RETRYABLE_ERRORS` is a parameter.
pub mod Ends
use omnisync.Base.{ℕ, Bool, not, ◌||◌, leb, String, none, if◌then◌else◌}
use omnisync.Base.Outcome.{Outcome, ok, raised}
use omnisync.Config.{Settings}
use omnisync.Session.{Session}
use omnisync.SyncLogs.{create_sync_log_own, settle_run_own}
use omnisync.Dlq.Record.{record_failure_standalone}
use omnisync.Integrations.{resync}

-- The retries that a task has behind it, and the most that it has.
pub record Attempts : Type 0 where
  pub retries : ℕ
  pub max_retries : ℕ

unfoldable pub is_done : (String → Bool) → Attempts → String → Bool
is_done retryable a e = not (retryable e) || leb a.max_retries a.retries

-- `_to_dlq_if_done` with the task's name as the operation. The context variable that the body sets
-- inside `asyncio.run` is not seen outside of it, so that `get_correlation_id() or None` is None.
unfoldable pub to_dlq_if_done :
    Settings → (String → Bool) → Attempts → String → String → String → Session → Session
unfolding is_done record_failure_standalone
to_dlq_if_done cfg retryable a operation source e s =
    if is_done retryable a e
    then record_failure_standalone cfg source operation resync e none s
    else s

-- A task: what its body raises is recorded, where the task is done with it, and raised again.
unfoldable pub run_task {ℓ} :
    {A : Type ℓ}
    → Settings
    → (String → Bool)
    → Attempts
    → String
    → String
    → Outcome A × Session
    → Outcome A × Session
unfolding to_dlq_if_done
run_task cfg retryable a operation source (ok x, s) = (ok x, s)
run_task cfg retryable a operation source (raised e, s) =
    (raised e, to_dlq_if_done cfg retryable a operation source e s)

-- The body of a task: its log, and the session of the `try` block, which commits at its end.
unfoldable pub logged {ℓ} :
    {A : Type ℓ} → String → String → (Session → Outcome A × Session) → Session → Outcome A × Session
unfolding create_sync_log_own settle_run_own
logged correlation_id operation block s =
    let (log_id, s') = create_sync_log_own correlation_id operation "started" s in
    settle_run_own log_id (block s')
