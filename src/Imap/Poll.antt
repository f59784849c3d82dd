-- ===== src/Imap/Poll.antt =====
-- src/imap/tasks.py, and `imap_sync` of src/imap/router.py. What the connector fetches is a parameter, the
-- payload of a message as JSON too.
use omnisync.Base.{
  ℕ, false, ◌||◌, String, Option, none, some, List, [], ◌∷◌, ◌++◌, length, str_eq, if◌then◌else◌,
  Timestamp,
}
use omnisync.Base.Json.{Json}
use omnisync.Base.Outcome.{Outcome, ok, raised}
use omnisync.Config.{Settings}
use omnisync.Session.{Session, close}
use omnisync.Events.Model.{NormalizedEventCreate}
use omnisync.Events.Upsert.{upsert_events_bulk}
use omnisync.RawPayloads.{Backend, save_raw_payload}
use omnisync.SyncState.{get_cursor, set_cursor}
use omnisync.SyncLogs.{create_sync_log, create_sync_log_own, settle_run}
use omnisync.Integrations.{TimeText, raise_to, since_of}
use omnisync.Tasks.{run_task, logged}
use omnisync.Imap.Message.{RawMail, normalize}

pub record ImapSettings : Type 0 where
  pub host : String
  pub username : String
  pub password : String

-- The ValueError of `IMAPConnector(…)`.
unfoldable pub check_settings : ImapSettings → Option String
check_settings i =
    if str_eq i.host ""
    then some "IMAP host must be configured (IMAP_HOST)"
    else if str_eq i.username "" || str_eq i.password ""
    then some "IMAP username and password must be configured"
    else none

-- The answer of a sync.
pub record SyncReply : Type 0 where
  pub messages : ℕ
  pub events_created : ℕ

unfoldable pub append_event :
    List NormalizedEventCreate → Option NormalizedEventCreate → List NormalizedEventCreate
append_event events none = events
append_event events (some e) = events ++ e ∷ []

unfoldable pub upsert_found : List NormalizedEventCreate → String → Session → ℕ × Session
unfolding upsert_events_bulk
upsert_found [] correlation_id s = (0, s)
upsert_found (e ∷ es) correlation_id s =
    let (results, s') = upsert_events_bulk (e ∷ es) (some correlation_id) s in (length results, s')

module _ (cfg : Settings) (backend : Backend) (texts : TimeText) (dump : RawMail → Json) where
  -- The loop over the messages, with `event_data_list` and `max_date` as they are so far.
  unfoldable pub take_mails :
      String
      → List RawMail
      → List NormalizedEventCreate
      → Option Timestamp
      → Session
      → (List NormalizedEventCreate × Option Timestamp) × Session
  unfolding save_raw_payload normalize append_event raise_to
  take_mails correlation_id [] events max_date s = ((events, max_date), s)
  take_mails correlation_id (raw ∷ raws) events max_date s =
      let (raw_payload_id, s') =
        save_raw_payload cfg backend "imap_poll" (dump raw) correlation_id s in
      take_mails correlation_id raws (append_event events (normalize raw (some raw_payload_id)))
        (raise_to max_date raw.date) s'

  unfoldable pub move_cursor : Option Timestamp → Session → Session
  unfolding set_cursor
  move_cursor none s = s
  move_cursor (some t) s = set_cursor "imap" (some (texts.isoformat t)) "default" s

  -- The `try` block of the task up to its commit.
  unfoldable pub poll_block :
      (Option Timestamp → Outcome (List RawMail)) → String → Session → Outcome (Option ℕ) × Session
  unfolding get_cursor since_of take_mails move_cursor upsert_found
  poll_block fetch correlation_id s =
      elim (since_of cfg backend texts (get_cursor "imap" "default" s.db)) [
        | none ↦ (raised "Invalid isoformat string", s)
        | some since ↦ elim (fetch since) [
          | raised e ↦ (raised e, s)
          | ok raws ↦
              let ((events, max_date), s') = take_mails correlation_id raws [] none s in
              let (n, s'') = upsert_found events correlation_id (move_cursor max_date s') in
              (ok (some n), s'')
        ]
      ]

  -- `_sync_imap_messages`: the connector is built after the log, before the `try` block. The outcome
  -- none is the skip.
  unfoldable pub poll_messages :
      ImapSettings
      → (Option Timestamp → Outcome (List RawMail))
      → String
      → Session
      → Outcome (Option ℕ) × Session
  unfolding check_settings create_sync_log_own logged poll_block
  poll_messages i fetch correlation_id s =
      if str_eq i.host "" then (ok none, s) else elim (check_settings i) [
        | some e ↦ (raised e, (create_sync_log_own correlation_id "imap_poll" "started" s).1)
        | none ↦ logged correlation_id "imap_poll" (poll_block fetch correlation_id) s
      ]

  -- Every exception is recorded: no error counts as one to retry, and there are no retries.
  unfoldable pub sync_imap_messages :
      ImapSettings
      → (Option Timestamp → Outcome (List RawMail))
      → String
      → Session
      → Outcome (Option ℕ) × Session
  unfolding run_task poll_messages
  sync_imap_messages i fetch correlation_id s =
      run_task cfg (λ _. false) (record { retries = 0; max_retries = 0 })
        "src.imap.tasks.sync_imap_messages" "imap" (poll_messages i fetch correlation_id s)

  unfoldable pub sync_block :
      Outcome (List RawMail) → String → Session → Outcome SyncReply × Session
  unfolding take_mails upsert_found
  sync_block fetched correlation_id s = elim fetched [
    | raised e ↦ (raised e, s)
    | ok raws ↦
        let ((events, max_date), s') = take_mails correlation_id raws [] none s in
        let (n, s'') = upsert_found events correlation_id s' in
        (ok (record { messages = length raws; events_created = n }), s'')
  ]

  -- The endpoint; the messages are what the connector fetches without `since`.
  unfoldable pub imap_sync :
      ImapSettings → Outcome (List RawMail) → String → Session → Outcome SyncReply × Session
  unfolding check_settings create_sync_log sync_block settle_run
  imap_sync i fetched correlation_id s =
      let (log_id, s') = create_sync_log correlation_id "imap_poll" "started" s in
      let run = settle_run log_id (sync_block fetched correlation_id s') in
      if str_eq i.host ""
      then (raised "IMAP not configured", close s)
      else elim (check_settings i) [ some e ↦ (raised e, close s') | none ↦ run ]
