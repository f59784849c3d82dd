-- ===== src/Imap/Polled.antt =====
-- What the task of src/imap/tasks.py leaves when it raises.
use omnisync.Base.{
  ◌≡◌, refl, ap, ◌∙◌, inl, inr, ℕ, true, false, String, Option, none, some, List, [], ◌∷◌, ◌++◌,
  any, map, arith, Bool-cases, Option-cases, str_eq, Uuid, Timestamp,
}
use omnisync.Base.Json.{Json}
use omnisync.Base.Outcome.{Outcome, Outcome-cases, raised}
use omnisync.Config.{Settings}
use omnisync.Session.{Session, Store}
use omnisync.Events.Model.{NormalizedEventCreate}
use omnisync.Events.Upsert.Frame.{committed-upsert_events_bulk}
use omnisync.RawPayloads.{Backend, save_raw_payload}
use omnisync.SyncState.{get_cursor, set_cursor}
use omnisync.SyncLogs.{create_sync_log_own, create_sync_log}
use omnisync.Dlq.Record.{is_active_for}
use omnisync.Integrations.{TimeText, raise_to, since_of}
use omnisync.Integrations.Frame.{save_raw_payload_frame}
use omnisync.Integrations.Failure.{says_failed}
use omnisync.Tasks.{run_task, to_dlq_if_done, is_done}
use omnisync.Tasks.Ends.{IsUncommitted, record_failure_standalone_frame, task_failed}
use omnisync.Webhooks.Blocks.{log_state, map_append-one}
use omnisync.Imap.Message.{RawMail, normalize}
use omnisync.Imap.Poll.{
  ImapSettings, check_settings, append_event, upsert_found, take_mails, move_cursor, poll_block,
  poll_messages, sync_imap_messages,
}

committed-upsert_found :
    (events : List NormalizedEventCreate) (correlation_id : String) (s : Session)
    → (upsert_found events correlation_id s).1.committed ≡ s.committed
unfolding upsert_found
committed-upsert_found [] correlation_id s = refl
committed-upsert_found (e ∷ es) correlation_id s =
    committed-upsert_events_bulk (e ∷ es) (some correlation_id) s

module _ (cfg : Settings) (backend : Backend) (texts : TimeText) (dump : RawMail → Json)
    (correlation_id : String) where
  committed-take_mails :
      (raws : List RawMail) (events : List NormalizedEventCreate) (max_date : Option Timestamp)
      (s : Session)
      → (take_mails cfg backend texts dump correlation_id raws events max_date s).1.committed
        ≡ s.committed
  unfolding take_mails
  committed-take_mails [] events max_date s = refl
  committed-take_mails (raw ∷ raws) events max_date s =
      let (i, s') = save_raw_payload cfg backend "imap_poll" (dump raw) correlation_id s in
      committed-take_mails raws (append_event events (normalize raw (some i)))
        (raise_to max_date raw.date) s'
      ∙ (save_raw_payload_frame cfg backend "imap_poll" (dump raw) correlation_id s).0

  committed-move_cursor :
      (t : Option Timestamp) (s : Session)
      → (move_cursor cfg backend texts dump t s).committed ≡ s.committed
  unfolding move_cursor set_cursor
  committed-move_cursor none s = refl
  committed-move_cursor (some t) s = ground arith

  module _ (i : ImapSettings) (fetch : Option Timestamp → Outcome (List RawMail)) where
    poll_block-committed : IsUncommitted (poll_block cfg backend texts dump fetch correlation_id)
    unfolding poll_block
    poll_block-committed s =
        elim (Option-cases (since_of cfg backend texts (get_cursor "imap" "default" s.db))) [
          | inl bad ↦ rw (bad, poll_block) refl
          | inr (since, good) ↦ elim (Outcome-cases (fetch since)) [
            | inr (e, failed) ↦ rw (good, failed, poll_block) refl
            | inl (raws, fetched) ↦
                let run = take_mails cfg backend texts dump correlation_id raws [] none s in
                let s2 = move_cursor cfg backend texts dump run.0.1 run.1 in
                rw (good, fetched, poll_block)
                  (committed-upsert_found run.0.0 correlation_id s2
                    ∙ committed-move_cursor run.0.1 run.1
                    ∙ committed-take_mails raws [] none s)
          ]
        ]

    abbrev task : Session → Outcome (Option ℕ) × Session
    task s = sync_imap_messages cfg backend texts dump i fetch correlation_id s

    -- Where the settings are refused the log still says "started", else it says "failed".
    abbrev pub IsLogLeft : Option String → Uuid → Store → Store → Type 0
    IsLogLeft none log_id before after = any (says_failed log_id) after.sync_logs ≡ true
    IsLogLeft (some refusal) log_id before after =
        map log_state after.sync_logs
        ≡ map log_state before.sync_logs ++ (correlation_id, "imap_poll", "started") ∷ []

    -- A sync of the mailbox that raises, in a fresh session: the events, their versions, the outbox,
    -- the payloads and the cursors are as before, and there is an active dead letter of the task. The
    -- log entry says "failed", but where the user or the password is missing it stays "started".
    pub sync_imap_messages_failed :
        (s : Session) {e : String}
        → s.db ≡ s.committed
        → (task s).0 ≡ raised e
        → let after = (task s).1.committed in
          (after ≡ record s.committed {
            sync_logs = after.sync_logs;
            failed_events = after.failed_events;
          })
          × (any (is_active_for "imap" "src.imap.tasks.sync_imap_messages") after.failed_events
              ≡ true)
          × IsLogLeft (check_settings i) (s.world.uuids 0) s.committed after
    unfolding sync_imap_messages poll_messages run_task to_dlq_if_done is_done create_sync_log_own
        create_sync_log
    sync_imap_messages_failed s {e} fresh h = elim (Bool-cases (str_eq i.host "")) [
      | inl skipped ↦ absurd (cc (rw (skipped, run_task) at h))
      | inr given ↦ elim (Option-cases (check_settings i)) [
        | inr (refusal, refused) ↦
            let opened = (create_sync_log_own correlation_id "imap_poll" "started" s).1 in
            let left =
              record_failure_standalone_frame cfg "imap" "src.imap.tasks.sync_imap_messages" refusal
                opened s.committed
                (ap (λ (d : Store). record d { sync_logs = opened.committed.sync_logs }) fresh)
                refl in
            rw (refused, given, run_task)
              (
                left.0,
                left.2,
                ap (map log_state) left.1
                    ∙ map_append-one log_state s.db.sync_logs _
                    ∙ ap
                        (λ (d : Store).
                          map log_state d.sync_logs
                          ++ (correlation_id, "imap_poll", "started") ∷ [])
                        fresh,
              )
        | inl passed ↦
            let left =
              task_failed correlation_id "imap_poll"
                (poll_block cfg backend texts dump fetch correlation_id) cfg (λ _. false)
                (record { retries = 0; max_retries = 0 }) "src.imap.tasks.sync_imap_messages" "imap"
                s {e = e} fresh poll_block-committed (rw (passed, given, run_task) at h) in
            rw (passed, given, run_task) (left.0, left.2, left.1)
      ]
    ]
