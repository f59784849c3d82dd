-- ===== src/Integrations/Failure.antt =====
-- A sync that raises leaves nothing but its records.
use omnisync.Base.{
  ◌≡◌, refl, sym, ap, subst, ◌∙◌, inl, inr, Bool, true, ◌&&◌, String, none, some, List, [], ◌∷◌,
  arith, Bool-cases, Option-cases, any, update, str_eq, ◌==◌, Uuid,
}
use omnisync.Base.Outcome.{raised, Outcome-cases}
use omnisync.Base.Rows.First.{any-append}
use omnisync.Config.{Settings}
use omnisync.Session.{Session, Store, rollback}
use omnisync.SyncLogs.Model.{SyncLog}
use omnisync.RawPayloads.{Backend}
use omnisync.SyncState.{get_cursor}
use omnisync.SyncLogs.{
  create_sync_log_own, update_sync_log_status_own, create_sync_log, update_sync_log_status,
}
use omnisync.Dlq.Record.{is_active_for, record_failure, record_failure_standalone}
use omnisync.Dlq.Record.Effect.{record_failure_frame, record_failure_active}
use omnisync.Integrations.{
  TimeText, Registry, get_connector, since_of, collect, sync_items, resync, finish_sync,
  run_connector_sync,
}
use omnisync.Integrations.Frame.{collect_frame}

-- The entry of a run in the log says that it failed, and how.
abbrev pub says_failed : Uuid → SyncLog → Bool
says_failed log_id l = l.id == log_id && str_eq l.status "failed"

pub update-says_failed :
    (log_id : Uuid) (e : String) (rows : List SyncLog)
    → any (λ l. l.id == log_id) rows ≡ true
    → any (says_failed log_id) (
        update
          (λ l. l.id == log_id)
          (λ l. record l { status = "failed"; error_text = some e })
          rows)
      ≡ true
update-says_failed log_id e [] h = absurd (cc)
update-says_failed log_id e (l ∷ rows) h = elim (Bool-cases (l.id == log_id)) [
  | inl here ↦ rw (here, here) refl
  | inr there ↦ rw (there, there) (update-says_failed log_id e rows (ground (arith, h, there)))
]

-- What is in the store after a failed run.
abbrev pub HasFailed : String → String → Uuid → Store → Store → Type 0
HasFailed source operation log_id before after =
    (after ≡ record before { sync_logs = after.sync_logs; failed_events = after.failed_events })
    × (any (says_failed log_id) after.sync_logs ≡ true)
    × (any (is_active_for source operation) after.failed_events ≡ true)

module _ (cfg : Settings) (backend : Backend) (texts : TimeText) where
  -- An exception comes before the commit.
  sync_items-committed :
      (registry : Registry) (source operation correlation_id : String) (s : Session) {e : String}
      → (sync_items cfg backend texts registry source operation correlation_id s).0 ≡ raised e
      → (sync_items cfg backend texts registry source operation correlation_id s).1.committed
        ≡ s.committed
  unfolding sync_items
  sync_items-committed registry source operation correlation_id s {e} =
      elim (Outcome-cases (get_connector source registry)) [
        | inr (x, unknown) ↦ rw (unknown, sync_items) (λ h. refl)
        | inl (connector, known) ↦
            elim (Option-cases (since_of cfg backend texts (get_cursor source "default" s.db))) [
              | inl bad ↦ rw (known, bad, sync_items) (λ h. refl)
              | inr (since, good) ↦ elim (Outcome-cases (connector.fetch since)) [
                | inr (x, failed) ↦ rw (known, good, failed, sync_items) (λ h. refl)
                | inl (raws, fetched) ↦
                    let loop =
                      collect cfg backend texts connector operation correlation_id raws [] none s in
                    elim (Outcome-cases loop.0) [
                      | inr (x, failed) ↦
                          rw (known, good, fetched, failed, sync_items)
                            (λ h.
                              (collect_frame cfg backend texts connector operation correlation_id
                                raws [] none s).0)
                      | inl (found, done) ↦
                          rw (known, good, fetched, done, sync_items) (λ h. absurd (cc))
                    ]
              ]
            ]
      ]

  finish_sync-HasFailed :
      (source operation correlation_id : String) (log_id : Uuid) (before : Store) (e : String)
      (s : Session)
      → s.committed ≡ record before { sync_logs = s.committed.sync_logs }
      → any (λ l. l.id == log_id) s.committed.sync_logs ≡ true
      → HasFailed source operation log_id before
          (finish_sync cfg backend texts source operation correlation_id log_id
            (raised e, s)).1.committed
  unfolding finish_sync update_sync_log_status_own update_sync_log_status record_failure_standalone
  finish_sync-HasFailed source operation correlation_id log_id before e s h l =
      let s' = update_sync_log_status_own log_id "failed" (some e) (rollback s) in
      let frame = record_failure_frame cfg source operation resync e (some correlation_id) s' in
      let logs = ap (λ (d : Store). d.sync_logs) frame in
      let logged = s'.db.sync_logs in
      let rows =
        (record_failure cfg source operation resync e (some correlation_id)
          s').1.db.failed_events in
      (
        frame
            ∙ ap (λ (d : Store). record d { failed_events = rows; sync_logs = logged }) h
            ∙ ap (λ l. record before { failed_events = rows; sync_logs = l }) (sym logs),
        subst (λ rows. any (says_failed log_id) rows ≡ true) (sym logs)
            (update-says_failed log_id e s.committed.sync_logs l),
        record_failure_active cfg source operation resync e (some correlation_id) s',
      )

  -- A run that raises, in a fresh session: of what is committed, the events, their versions, the
  -- outbox, the raw payloads and the cursors are as before the run. Its log entry says "failed",
  -- and there is an active dead letter of its source and operation.
  pub run_connector_sync_failed :
      (registry : Registry) (source operation correlation_id : String) (s : Session) (e : String)
      → s.db ≡ s.committed
      → (run_connector_sync cfg backend texts registry source operation correlation_id s).0
        ≡ raised e
      → HasFailed source operation
          (s.world.uuids 0)
          s.committed
          (run_connector_sync cfg backend texts registry source operation correlation_id
            s).1.committed
  unfolding run_connector_sync create_sync_log_own create_sync_log finish_sync
  run_connector_sync_failed registry source operation correlation_id s e fresh h =
      let started = create_sync_log_own correlation_id operation "started" s in
      let attempt =
        sync_items cfg backend texts registry source operation correlation_id started.1 in
      elim (Outcome-cases attempt.0) [
        | inl (n, done) ↦ absurd (cc (rw (done, finish_sync) at h))
        | inr (x, failed) ↦
            let kept : attempt.1.committed ≡ started.1.committed =
              sync_items-committed registry source operation correlation_id started.1 {e = x}
                failed in
            let logs = ap (λ (d : Store). d.sync_logs) kept in
            rw (failed, finish_sync)
              (finish_sync-HasFailed source operation correlation_id (s.world.uuids 0) s.committed x
                attempt.1
                (kept
                  ∙ ap (λ (d : Store). record d { sync_logs = started.1.committed.sync_logs }) fresh
                  ∙ ap (λ l. record s.committed { sync_logs = l }) (sym logs))
                (subst (λ rows. any (λ l. l.id == s.world.uuids 0) rows ≡ true) (sym logs)
                  (any-append (λ (l : SyncLog). l.id == s.world.uuids 0) _ s.db.sync_logs
                    (ground arith))))
      ]
