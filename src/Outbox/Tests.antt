-- ===== src/Outbox/Tests.antt =====
-- Concrete runs of the publisher.
use omnisync.Base.{
  ◌+◌, ◌≡◌, ◌≢◌, ◌⊎◌, refl, none, some, List, [], ◌∷◌, arith, Uuid, Timestamp, Bool, false,
}
use omnisync.Base.Rows.{find}
use omnisync.Config.{default_settings}
use omnisync.Session.{Session, Store}
use omnisync.Outbox.Model.{OutboxEvent, Status, pending}
use omnisync.Outbox.Publish.{Indexer, fetch_pending, publish_outbox}
use omnisync.Outbox.Publish.Effect.{outbox_id, indexed, delivered, publish_outbox_row}
use omnisync.Outbox.Publish.Attempts.{runs, publish_settles}

abbrev commit_entry : OutboxEvent
commit_entry = record {
  id = 3;
  aggregate_type = "normalized_event";
  aggregate_id = 7;
  event_type = "commit";
  payload = record {
    event_id = 7;
    source = "github";
    external_id = "c1";
    event_type = "commit";
    content = "first";
    version = 1;
    schema_version = 1;
  };
  status = Status.pending;
  attempts = 9;
  last_error = none;
  created_at = 60;
  published_at = none;
}

abbrev tables : List OutboxEvent → Store
tables rows = record {
  events = [];
  versions = [];
  outbox = rows;
  raw_payloads = [];
  failed_events = [];
  sync_states = [];
  sync_logs = [];
  deliveries = [];
  users = [];
}

abbrev one_entry : Session
one_entry = record {
  committed = tables [];
  db = tables (commit_entry ∷ []);
  world = record { uuids = λ n. n; clock = λ n. n + 1000 };
}

abbrev nobody_else : Uuid → Bool
nobody_else _ = false

-- The index is down.
abbrev refuses : Indexer
refuses _ _ _ _ = false

publish_outbox_row_example :
    let after =
      (publish_outbox default_settings nobody_else refuses one_entry).1.committed.outbox in
    ((find outbox_id 3 (fetch_pending default_settings none nobody_else (commit_entry ∷ [])) ≡ none)
      × (find outbox_id 3 after ≡ some commit_entry))
    ⊎ ((find outbox_id 3 (fetch_pending default_settings none nobody_else (commit_entry ∷ []))
          ≡ some commit_entry)
        × (commit_entry.status ≡ pending)
        × (nobody_else 3 ≡ false)
        × (now : Timestamp) × (find outbox_id 3 after
            ≡ some (delivered default_settings now (indexed refuses commit_entry) commit_entry)))
publish_outbox_row_example =
    publish_outbox_row default_settings nobody_else refuses one_entry 3 {o = commit_entry} (tt, tt)
      refl

publish_settles_example :
    (o : OutboxEvent) × (find outbox_id 3
        (runs default_settings 10 (λ _. refuses) one_entry).db.outbox
      ≡ some o)
    × (o.status ≢ pending)
publish_settles_example =
    publish_settles default_settings (λ _. refuses) one_entry 3 {o = commit_entry} (tt, tt)
      (omega arith) (omega arith) refl
