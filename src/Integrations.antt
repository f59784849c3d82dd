-- ===== src/Integrations.antt =====
-- src/integrations: the registry of connectors and the driver of an incremental sync. A connector's
-- `fetch` and `normalize` are an interface, the texts of timestamps too.
pub mod Unary
pub mod Frame
pub mod Failure
pub mod Latest
pub mod Collected
pub mod Success
mod Tests
use omnisync.Base.{
  ℕ, ◌≡◌, ◌≢◌, Bool, true, false, String, Option, none, some, List, [], ◌∷◌, ◌++◌, str_eq, join,
  ltb, length, if◌then◌else◌, Uuid, Timestamp,
}
use omnisync.Base.Json
use omnisync.Base.Json.{Json}
use omnisync.Base.Outcome.{Outcome, ok, raised}
use omnisync.Config.{Settings}
use omnisync.Session.{Session, Store, commit, rollback, close}
use omnisync.Events.Model.{NormalizedEvent, NormalizedEventCreate}
use omnisync.Events.Upsert.{upsert_events_bulk}
use omnisync.RawPayloads.{Backend, save_raw_payload}
use omnisync.SyncState.{get_cursor, set_cursor}
use omnisync.SyncLogs.{create_sync_log_own, update_sync_log_status_own}
use omnisync.Dlq.Record.{record_failure_standalone}

-- `BaseConnector`
pub record Connector : Type 0 where
  pub fetch : Option Timestamp → Outcome (List Json)
  pub normalize : Json → Uuid → Outcome (Option NormalizedEventCreate)

-- `normalize_all`: the items that are events.
unfoldable pub normalize_all : Connector → List Json → Uuid → Outcome (List NormalizedEventCreate)
normalize_all connector [] raw_payload_id = ok []
normalize_all connector (item ∷ items) raw_payload_id =
    elim (connector.normalize item raw_payload_id) [
      | raised e ↦ raised e
      | ok normalized ↦
          let rest = normalize_all connector items raw_payload_id in
          elim rest [
            | raised e ↦ raised e
            | ok results ↦ elim normalized [ none ↦ ok results | some ev ↦ ok (ev ∷ results) ]
          ]
    ]

-- `datetime.isoformat` and `datetime.fromisoformat`; `none` is the ValueError.
pub record TimeText : Type 0 where
  pub isoformat : Timestamp → String
  pub fromisoformat : String → Option Timestamp
  pub parse-print : (t : Timestamp) → fromisoformat (isoformat t) ≡ some t
  pub print-ne-empty : (t : Timestamp) → isoformat t ≢ ""

abbrev pub Registry : Type 0
Registry = List (String × Connector)

unfoldable pub register_connector : String → Connector → Registry → Registry
register_connector source cls registry = (source, cls) ∷ registry

unfoldable pub get_connector : String → Registry → Outcome Connector
get_connector source [] = raised (join "No connector registered for source: " source)
get_connector source ((s, cls) ∷ registry) =
    if str_eq s source then ok cls else get_connector source registry

-- `if max_ts is None or event_data.timestamp > max_ts`
unfoldable pub raise_to : Option Timestamp → Timestamp → Option Timestamp
raise_to none t = some t
raise_to (some m) t = if ltb m t then some t else some m

pub upsert_if_any : List NormalizedEventCreate → String → Session → List NormalizedEvent × Session
unfolding upsert_events_bulk
upsert_if_any [] correlation_id s = ([], s)
upsert_if_any (e ∷ es) correlation_id s = upsert_events_bulk (e ∷ es) (some correlation_id) s

-- The payload of the dead letter.
abbrev pub resync : Json
resync = Json.obj (Json.field "trigger" (Json.str "resync") Json.end)

-- `operation or f"{source}_poll"` is done by the caller: `operation` is the result.
module _ (cfg : Settings) (backend : Backend) (texts : TimeText) where
  open texts use {isoformat, fromisoformat}

  -- `datetime.fromisoformat(cursor) if cursor else None`; the outer `none` is the exception.
  unfoldable pub since_of : Option String → Option (Option Timestamp)
  since_of none = some none
  since_of (some t) =
      if str_eq t ""
      then some none
      else elim (fromisoformat t) [ none ↦ none | some ts ↦ some (some ts) ]

  -- The loop over the fetched items, with `event_data_list` and `max_ts` as they are so far.
  unfoldable pub collect :
      Connector
      → String
      → String
      → List Json
      → List NormalizedEventCreate
      → Option Timestamp
      → Session
      → Outcome (List NormalizedEventCreate × Option Timestamp) × Session
  unfolding save_raw_payload raise_to
  collect connector operation correlation_id [] events max_ts s = (ok (events, max_ts), s)
  collect connector operation correlation_id (raw ∷ raws) events max_ts s =
      let (raw_payload_id, s') = save_raw_payload cfg backend operation raw correlation_id s in
      elim (connector.normalize raw raw_payload_id) [
        | raised e ↦ (raised e, s')
        | ok result ↦ elim result [
          | none ↦ collect connector operation correlation_id raws events max_ts s'
          | some ev ↦
              collect connector operation correlation_id raws (events ++ ev ∷ [])
                (raise_to max_ts ev.timestamp) s'
        ]
      ]

  pub advance : String → Option Timestamp → Session → Session
  unfolding set_cursor
  advance source none s = s
  advance source (some t) s = set_cursor source (some (isoformat t)) "default" s

  -- From the upsert to the commit.
  unfoldable pub store_events :
      String → String → List NormalizedEventCreate × Option Timestamp → Session → ℕ × Session
  unfolding upsert_if_any advance
  store_events source correlation_id (events, max_ts) s =
      let (results, s') = upsert_if_any events correlation_id s in
      (length results, commit (advance source max_ts s'))

  -- The `try` block.
  unfoldable pub sync_items : Registry → String → String → String → Session → Outcome ℕ × Session
  unfolding get_connector get_cursor since_of collect store_events
  sync_items registry source operation correlation_id s = elim (get_connector source registry) [
    | raised e ↦ (raised e, s)
    | ok connector ↦ elim (since_of (get_cursor source "default" s.db)) [
      | none ↦ (raised "Invalid isoformat string", s)
      | some since ↦ elim (connector.fetch since) [
        | raised e ↦ (raised e, s)
        | ok raws ↦
            let (outcome, s') = collect connector operation correlation_id raws [] none s in
            elim outcome [
              | raised e ↦ (raised e, s')
              | ok found ↦ let (n, s'') = store_events source correlation_id found s' in (ok n, s'')
            ]
      ]
    ]
  ]

  -- How the outcome of the `try` block is recorded.
  unfoldable pub finish_sync :
      String → String → String → Uuid → Outcome ℕ × Session → Outcome ℕ × Session
  unfolding update_sync_log_status_own record_failure_standalone
  finish_sync source operation correlation_id log_id (ok n, s) =
      (ok n, update_sync_log_status_own log_id "completed" none s)
  finish_sync source operation correlation_id log_id (raised e, s) = (
    raised e,
    record_failure_standalone cfg source operation resync e (some correlation_id)
        (update_sync_log_status_own log_id "failed" (some e) (rollback s)),
  )

  unfoldable pub run_connector_sync :
      Registry → String → String → String → Session → Outcome ℕ × Session
  unfolding create_sync_log_own sync_items finish_sync
  run_connector_sync registry source operation correlation_id s =
      let (log_id, s') = create_sync_log_own correlation_id operation "started" s in
      finish_sync source operation correlation_id log_id
        (sync_items registry source operation correlation_id s')
