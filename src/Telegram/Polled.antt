-- ===== src/Telegram/Polled.antt =====
-- What the polling task of src/telegram/tasks.py leaves.
use omnisync.Base.{
  ◌≡◌, refl, sym, ap, ◌∙◌, inl, inr, ℕ, Bool, String, Option, none, some, List, [], Option-cases,
}
use omnisync.Base.Json.{Json}
use omnisync.Base.Rows.{HasUniqueIds}
use omnisync.Base.Outcome.{Outcome, Outcome-cases, ok, raised}
use omnisync.Config.{Settings}
use omnisync.Session.{Session, Store}
use omnisync.SyncLogs.{create_sync_log_own, create_sync_log}
use omnisync.SyncState.{get_cursor}
use omnisync.SyncState.Cursors.{state_id}
use omnisync.Events.Upsert.Rows.{IsUnique}
use omnisync.Events.Upsert.Frame.{committed-upsert_events_bulk}
use omnisync.RawPayloads.{Backend}
use omnisync.Tasks.{Attempts, logged}
use omnisync.Tasks.Ends.{HasFailedRun, HasLogged→HasFailedRun, run_task-ok, logged-ok, task_failed}
use omnisync.Telegram.Normalize.{TelegramUpdate}
use omnisync.Telegram.Poll.{
  acknowledge, collect_updates, store_updates, poll_block, offset_of, sync_telegram_messages,
}
use omnisync.Telegram.Poll.Collect.{collect_updates_frame}
use omnisync.Telegram.Stored.{
  get_cursor-states, IsPolled, IsPolled-congr, store_if_any_eq, store_updates-IsPolled,
  committed-acknowledge,
}

module _ (cfg : Settings) (backend : Backend) (dump : TelegramUpdate → Json)
    (correlation_id : String) where
  poll_block-committed :
      (get_updates : Option ℕ → Outcome (List TelegramUpdate)) (s : Session)
      → (poll_block cfg backend dump get_updates correlation_id s).1.committed ≡ s.committed
  unfolding poll_block store_updates
  poll_block-committed get_updates s =
      elim (Option-cases (offset_of (get_cursor "telegram" "default" s.db))) [
        | inl bad ↦ rw (bad, poll_block) refl
        | inr (offset, good) ↦ elim (Outcome-cases (get_updates offset)) [
          | inr (e, failed) ↦ rw (good, failed, poll_block) refl
          | inl (updates, fetched) ↦
              let run = collect_updates cfg backend dump correlation_id updates [] none s in
              let s2 = acknowledge run.0.1 run.1 in
              rw (good, fetched, poll_block)
                (ap (λ (p : Session). p.committed)
                    (store_if_any_eq cfg backend dump correlation_id run.0.0 s2)
                  ∙ committed-upsert_events_bulk run.0.0 (some correlation_id) s2
                  ∙ committed-acknowledge cfg backend dump correlation_id run.0.1 run.1
                  ∙ (collect_updates_frame cfg backend dump correlation_id updates [] none s).0)
        ]
      ]

  poll_block-IsPolled :
      (get_updates : Option ℕ → Outcome (List TelegramUpdate)) (s : Session) {n : ℕ}
      → IsUnique s.db.events
      → HasUniqueIds state_id s.db.sync_states
      → (poll_block cfg backend dump get_updates correlation_id s).0 ≡ ok n
      → (offset : Option ℕ) × (updates : List TelegramUpdate) × (offset_of
            (get_cursor "telegram" "default" s.db)
          ≡ some offset)
        × (get_updates offset ≡ ok updates)
        × IsPolled cfg backend dump correlation_id updates s.db
            (poll_block cfg backend dump get_updates correlation_id s).1.db
  unfolding poll_block
  poll_block-IsPolled get_updates s {n} u ids h =
      elim (Option-cases (offset_of (get_cursor "telegram" "default" s.db))) [
        | inl bad ↦ absurd (cc (rw (bad, poll_block) at h))
        | inr (offset, good) ↦ elim (Outcome-cases (get_updates offset)) [
          | inr (e, failed) ↦ absurd (cc (rw (good, failed, poll_block) at h))
          | inl (updates, fetched) ↦
              rw (good, fetched, poll_block)
                (
                  offset,
                  updates,
                  refl,
                  fetched,
                  store_updates-IsPolled cfg backend dump correlation_id updates s u ids,
                )
        ]
      ]

  module _ (retryable : String → Bool) (a : Attempts)
      (get_updates : Option ℕ → Outcome (List TelegramUpdate)) where
    abbrev task : Session → Outcome ℕ × Session
    task s = sync_telegram_messages cfg backend dump retryable a get_updates correlation_id s

    -- A poll that raises, in a fresh session: the events, their versions, the outbox, the payloads and
    -- the cursors are as before, so that the next poll asks for the same updates. The log entry says
    -- "failed". Either the error is not retryable or the retries are used up, and there is an active
    -- dead letter of the task, or the error is retryable with retries left, and the dead letters are
    -- as before.
    pub sync_telegram_messages_failed :
        (s : Session) {e : String}
        → s.db ≡ s.committed
        → (task s).0 ≡ raised e
        → HasFailedRun retryable a e "telegram" "src.telegram.tasks.sync_telegram_messages"
            (s.world.uuids 0)
            s.committed
            (task s).1.committed
    unfolding sync_telegram_messages
    sync_telegram_messages_failed s {e} fresh h =
        HasLogged→HasFailedRun retryable a e "telegram" "src.telegram.tasks.sync_telegram_messages"
          (s.world.uuids 0) s.committed (task s).1.committed
          (task_failed correlation_id "telegram_poll"
            (poll_block cfg backend dump get_updates correlation_id) cfg retryable a
            "src.telegram.tasks.sync_telegram_messages" "telegram" s {e = e} fresh
            (poll_block-committed get_updates) h)

    -- A poll that ends normally, over tables that meet their constraints: it asked for the updates
    -- from the cursor on, and committed for each of their messages with a text an event under its
    -- key. In the same commit the cursor moved past all the fetched updates, to a text that the next
    -- poll reads as the offset after the highest of them, or stayed where there were none.
    pub sync_telegram_messages_succeeded :
        (s : Session) (n : ℕ)
        → IsUnique s.db.events
        → HasUniqueIds state_id s.db.sync_states
        → (task s).0 ≡ ok n
        → (offset : Option ℕ) × (updates : List TelegramUpdate) × (offset_of
              (get_cursor "telegram" "default" s.db)
            ≡ some offset)
          × (get_updates offset ≡ ok updates)
          × IsPolled cfg backend dump correlation_id updates s.db (task s).1.committed
    unfolding sync_telegram_messages create_sync_log_own create_sync_log
    sync_telegram_messages_succeeded s n u ids h =
        let block = poll_block cfg backend dump get_updates correlation_id in
        let run = logged correlation_id "telegram_poll" block s in
        let opened = (create_sync_log_own correlation_id "telegram_poll" "started" s).1 in
        let same =
          run_task-ok cfg retryable a "src.telegram.tasks.sync_telegram_messages" "telegram" run
            {x = n} h in
        let ended =
          logged-ok correlation_id "telegram_poll" block s {x = n}
            (ap (λ (t : Outcome ℕ × Session). t.0) (sym same) ∙ h) in
        let left = ap (λ (t : Outcome ℕ × Session). t.1.committed) same ∙ ended.1 in
        let done = poll_block-IsPolled get_updates opened {n = n} u ids ended.0 in
        (
          done.0,
          done.1,
          ap offset_of (get_cursor-states s.db opened.db refl) ∙ done.2,
          done.3,
          IsPolled-congr cfg backend dump correlation_id done.1 opened.db s.db (block opened).1.db
              (task s).1.committed refl refl (sym (ap (λ (d : Store). d.events) left))
              (sym (ap (λ (d : Store). d.sync_states) left)) done.4,
        )
