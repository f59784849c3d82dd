-- ===== src/Tasks/Ends.antt =====
-- The two ends of a task that polls a source.
use omnisync.Base.{
  false, ◌≡◌, refl, sym, ◌⊎◌, ◌≤◌, ◌<◌, leb, ap, subst, ◌∙◌, inl, inr, Bool, true, String, none,
  some, arith, Bool-cases, any, update, ◌==◌, Uuid, if◌then◌else◌,
}
use omnisync.Base.Outcome.{Outcome, Outcome-cases, ok, raised}
use omnisync.Base.Rows.First.{any-append}
use omnisync.Config.{Settings}
use omnisync.Session.{Session, Store}
use omnisync.SyncLogs.Model.{SyncLog}
use omnisync.SyncLogs.{
  create_sync_log_own, create_sync_log, settle_run_own, update_sync_log_status_own,
  update_sync_log_status,
}
use omnisync.Dlq.Record.{is_active_for, record_failure, record_failure_standalone}
use omnisync.Dlq.Record.Effect.{record_failure_frame, record_failure_active}
use omnisync.Integrations.{resync}
use omnisync.Integrations.Failure.{says_failed, update-says_failed}
use omnisync.Tasks.{Attempts, is_done, to_dlq_if_done, run_task, logged}

-- A block that is one transaction: it commits nothing itself.
abbrev pub IsUncommitted {ℓ} : {A : Type ℓ} → (Session → Outcome A × Session) → Type 0
IsUncommitted block = (s : Session) → (block s).1.committed ≡ s.committed

-- What a failed task commits: its log entry says "failed", and a dead letter where it is done.
abbrev pub HasLogged : Bool → String → String → Uuid → Store → Store → Type 0
HasLogged done source operation log_id before after =
    (after ≡ record before { sync_logs = after.sync_logs; failed_events = after.failed_events })
    × (any (says_failed log_id) after.sync_logs ≡ true)
    × (if done
        then any (is_active_for source operation) after.failed_events ≡ true
        else after.failed_events ≡ before.failed_events)

-- The same, with the rule written out: a failure that cannot be retried, or has used up the retries,
-- leaves a dead letter; another one waits for the next retry of the task.
abbrev pub HasFailedRun :
    (String → Bool) → Attempts → String → String → String → Uuid → Store → Store → Type 0
HasFailedRun retryable a e source operation log_id before after =
    (after ≡ record before { sync_logs = after.sync_logs; failed_events = after.failed_events })
    × (any (says_failed log_id) after.sync_logs ≡ true)
    × ((((retryable e ≡ false) ⊎ (a.max_retries ≤ a.retries))
          × (any (is_active_for source operation) after.failed_events ≡ true))
        ⊎ ((retryable e ≡ true)
            × (a.retries < a.max_retries)
            × (after.failed_events ≡ before.failed_events)))

pub HasLogged→HasFailedRun :
    (retryable : String → Bool) (a : Attempts) (e source operation : String) (log_id : Uuid)
    (before after : Store)
    → HasLogged (is_done retryable a e) source operation log_id before after
    → HasFailedRun retryable a e source operation log_id before after
unfolding is_done
HasLogged→HasFailedRun retryable a e source operation log_id before after (frame, log, letter) = (
  frame,
  log,
  elim (Bool-cases (retryable e)) [
    | inr fatal ↦ inl (inl fatal, rw fatal at letter)
    | inl again ↦ elim (Bool-cases (leb a.max_retries a.retries)) [
      | inl last ↦ inl (inr (ground (arith, last)), rw (again, last) at letter)
      | inr more ↦ inr (again, ground (arith, more), rw (again, more) at letter)
    ]
  ],
)

pub run_task-ok {ℓ} :
    {A : Type ℓ} (cfg : Settings) (retryable : String → Bool) (a : Attempts) (name source : String)
    (r : Outcome A × Session) {x : A}
    → (run_task cfg retryable a name source r).0 ≡ ok x
    → run_task cfg retryable a name source r ≡ r
unfolding run_task
run_task-ok cfg retryable a name source (ok y, s) h = refl
run_task-ok cfg retryable a name source (raised e, s) h = absurd (cc)

-- The dead letter is committed, and the log stays.
pub record_failure_standalone_frame :
    (cfg : Settings) (source name x : String) (s : Session) (before : Store)
    → s.committed ≡ record before { sync_logs = s.committed.sync_logs }
    → s.db ≡ s.committed
    → let after = (record_failure_standalone cfg source name resync x none s).committed in
      (after ≡ record before { sync_logs = after.sync_logs; failed_events = after.failed_events })
      × (after.sync_logs ≡ s.committed.sync_logs)
      × (any (is_active_for source name) after.failed_events ≡ true)
unfolding record_failure_standalone
record_failure_standalone_frame cfg source name x s before h fresh =
    let s' = (record_failure cfg source name resync x none s).1 in
    let frame : s'.db ≡ record s.db { failed_events = s'.db.failed_events } =
      record_failure_frame cfg source name resync x none s in
    let logs : s'.db.sync_logs ≡ s.committed.sync_logs =
      ap (λ (d : Store). d.sync_logs) frame ∙ ap (λ (d : Store). d.sync_logs) fresh in
    let failures = s'.db.failed_events in
    (
      frame
          ∙ ap (λ (d : Store). record d { failed_events = failures }) (fresh ∙ h)
          ∙ ap (λ l. record before { failed_events = failures; sync_logs = l }) (sym logs),
      logs,
      record_failure_active cfg source name resync x none s,
    )

dead_letter :
    (cfg : Settings) (source name x : String) (s : Session) (log_id : Uuid) (before : Store)
    → s.committed ≡ record before { sync_logs = s.committed.sync_logs }
    → any (says_failed log_id) s.committed.sync_logs ≡ true
    → s.db ≡ s.committed
    → HasLogged true source name log_id before
        (record_failure_standalone cfg source name resync x none s).committed
dead_letter cfg source name x s log_id before h l fresh =
    let left = record_failure_standalone_frame cfg source name x s before h fresh in
    (left.0, subst (λ rows. any (says_failed log_id) rows ≡ true) (sym left.1) l, left.2)

module _ {ℓ} {A : Type ℓ} (correlation_id operation : String)
    (block : Session → Outcome A × Session) where
  abbrev started : Session → Uuid × Session
  started s = create_sync_log_own correlation_id operation "started" s

  -- A run that ends normally: what the block made of the store, with the end in the log.
  pub logged-ok :
      (s : Session) {x : A}
      → (logged correlation_id operation block s).0 ≡ ok x
      → ((block (started s).1).0 ≡ ok x)
        × ((logged correlation_id operation block s).1.committed
            ≡ record (block (started s).1).1.db {
              sync_logs = (logged correlation_id operation block s).1.committed.sync_logs;
            })
  unfolding logged settle_run_own update_sync_log_status_own update_sync_log_status
  logged-ok s {x} h = elim (Outcome-cases (block (started s).1).0) [
    | inr (e, failed) ↦ absurd (cc (rw (failed, logged, settle_run_own) at h))
    | inl (y, done) ↦
        rw (done, logged, settle_run_own) (rw (done, logged, settle_run_own) at h, refl)
  ]

  pub logged-raised :
      (s : Session) {e : String}
      → s.db ≡ s.committed
      → IsUncommitted block
      → (logged correlation_id operation block s).0 ≡ raised e
      → let after = (logged correlation_id operation block s).1 in
        (after.committed ≡ record s.committed { sync_logs = after.committed.sync_logs })
        × (any (says_failed (s.world.uuids 0)) after.committed.sync_logs ≡ true)
        × (after.db ≡ after.committed)
  unfolding logged settle_run_own update_sync_log_status_own update_sync_log_status
      create_sync_log_own create_sync_log
  logged-raised s {e} fresh b h = elim (Outcome-cases (block (started s).1).0) [
    | inl (y, done) ↦ absurd (cc (rw (done, logged, settle_run_own) at h))
    | inr (x, failed) ↦
        let kept = b (started s).1 in
        let rows = (block (started s).1).1.committed.sync_logs in
        let entry : any (λ (l : SyncLog). l.id == s.world.uuids 0) rows ≡ true =
          subst (λ rows. any (λ (l : SyncLog). l.id == s.world.uuids 0) rows ≡ true)
            (ap (λ (d : Store). d.sync_logs) (sym kept))
            (any-append (λ (l : SyncLog). l.id == s.world.uuids 0) _ s.db.sync_logs
              (ground arith)) in
        let written =
          update (λ (l : SyncLog). l.id == s.world.uuids 0)
            (λ (l : SyncLog). record l { status = "failed"; error_text = some x }) rows in
        rw (failed, logged, settle_run_own)
          (
            ap (λ (d : Store). record d { sync_logs = written })
                (kept
                  ∙ ap (λ (d : Store). record d { sync_logs = (started s).1.committed.sync_logs })
                      fresh),
            update-says_failed (s.world.uuids 0) x rows entry,
            refl,
          )
  ]

  module _ (cfg : Settings) (retryable : String → Bool) (a : Attempts) (name source : String) where
    abbrev ended : Session → Outcome A × Session
    ended s = run_task cfg retryable a name source (logged correlation_id operation block s)

    -- A task that raises.
    pub task_failed :
        (s : Session) {e : String}
        → s.db ≡ s.committed
        → IsUncommitted block
        → (ended s).0 ≡ raised e
        → HasLogged
            (is_done retryable a e)
            source
            name
            (s.world.uuids 0)
            s.committed
            (ended s).1.committed
    unfolding run_task to_dlq_if_done
    task_failed s {e} fresh b h = elim (Outcome-cases (logged correlation_id operation block s).0) [
      | inl (y, done) ↦ absurd (cc (rw (done, run_task) at h))
      | inr (x, failed) ↦
          let r = logged correlation_id operation block s in
          let left = logged-raised s {e = x} fresh b failed in
          let same : x ≡ e = cc (rw (failed, run_task) at h) in
          subst
            (λ e.
              HasLogged (is_done retryable a e) source name (s.world.uuids 0) s.committed
                (ended s).1.committed)
            same
            (elim (Bool-cases (is_done retryable a x)) [
              | inr more ↦
                  rw (failed, more, run_task)
                    (
                      left.0
                          ∙ ap
                              (λ l. record s.committed {
                                sync_logs = r.1.committed.sync_logs;
                                failed_events = l;
                              })
                              (sym (ap (λ (d : Store). d.failed_events) left.0)),
                      left.1,
                      ap (λ (d : Store). d.failed_events) left.0,
                    )
              | inl last ↦
                  rw (failed, last, run_task)
                    (dead_letter cfg source name x r.1 (s.world.uuids 0) s.committed left.0 left.1
                      left.2)
            ])
    ]
