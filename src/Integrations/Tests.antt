-- ===== src/Integrations/Tests.antt =====
-- Concrete runs of the connector driver.
use omnisync.Base.{◌+◌, refl, none, some, List, [], ◌∷◌}
use omnisync.Base.Json.{Json}
use omnisync.Base.Outcome.{ok}
use omnisync.Config.{default_settings}
use omnisync.Session.{Session, Store}
use omnisync.Events.Model.{NormalizedEventCreate}
use omnisync.RawPayloads.{Backend}
use omnisync.Integrations.Unary.{texts}
use omnisync.Integrations.{Connector, Registry, run_connector_sync}
use omnisync.Integrations.Failure.{HasFailed, run_connector_sync_failed}
use omnisync.Integrations.Collected.{AreFetched}
use omnisync.Integrations.Success.{IsSynced, run_connector_sync_succeeded}

abbrev no_rows : Store
no_rows = record {
  events = [];
  versions = [];
  outbox = [];
  raw_payloads = [];
  failed_events = [];
  sync_states = [];
  sync_logs = [];
  deliveries = [];
  users = [];
}

abbrev session : Session
session = record {
  committed = no_rows;
  db = no_rows;
  world = record { uuids = λ n. n + 100; clock = λ n. n + 1000 };
}

abbrev backend : Backend
backend = record {
  canonical_hash = λ _. "hash";
  encoded_size = λ _. 10;
  save_object = λ _ _ _ _. none;
  get_object = λ _. none;
}

abbrev issue : NormalizedEventCreate
issue = record {
  external_id = "J-1";
  source = "jira";
  author_id = "u1";
  author_name = "Ann";
  content = "first";
  event_type = "issue";
  timestamp = 3;
  raw_payload_id = none;
  schema_version = 1;
}

abbrev jira : Connector
jira = record { fetch = λ _. ok (Json.str "issue" ∷ []); normalize = λ _ _. ok (some issue) }

abbrev registry : Registry
registry = ("jira", jira) ∷ []

run_connector_sync_failed_example :
    HasFailed "imap" "imap_poll" 100 no_rows
      (run_connector_sync default_settings backend texts registry "imap" "imap_poll" "c1"
        session).1.committed
unfolding run_connector_sync
run_connector_sync_failed_example =
    run_connector_sync_failed default_settings backend texts registry "imap" "imap_poll" "c1"
      session "No connector registered for source: imap" refl refl

run_connector_sync_succeeded_example :
    (events : List NormalizedEventCreate) × AreFetched default_settings backend texts registry
      "jira" no_rows events
    × IsSynced default_settings backend texts "jira" events 1 no_rows
        (run_connector_sync default_settings backend texts registry "jira" "jira_poll" "c1"
          session).1.committed
unfolding run_connector_sync
run_connector_sync_succeeded_example =
    run_connector_sync_succeeded default_settings backend texts registry "jira" "jira_poll" "c1"
      session 1 refl tt tt refl
