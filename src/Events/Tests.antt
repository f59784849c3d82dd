-- ===== src/Events/Tests.antt =====
-- Concrete runs of the upsert and of the listing.
use omnisync.Base.{◌+◌, ◌≡◌, refl, subst, String, none, some, List, [], ◌∷◌, map, arith, Uuid}
use omnisync.Session.{Session, Store}
use omnisync.Pagination.Unary.{unary_codec}
use omnisync.Events.Model.{NormalizedEvent, EventVersion, NormalizedEventCreate}
use omnisync.Events.Upsert.{Key, key_of, has_version, dedup, upsert_events_bulk, same_key}
use omnisync.Events.Upsert.Rows.{event_of, IsUnique}
use omnisync.Events.Upsert.Keys.{input_of}
use omnisync.Events.Upsert.Effect.{
  upserted, upsert_events_bulk-event_of_input, upsert_events_bulk_others,
}
use omnisync.Events.Upsert.Results.{IsExtended, upsert_events_bulk-results}
use omnisync.Events.Upsert.History.{version_of, upsert_events_bulk-keeps_versions}
use omnisync.Events.Upsert.Ids.{HasDistinctIds}
use omnisync.Events.Upsert.Recorded.{IsConsistent, IsRecorded, HasFreshDraws}
use omnisync.Events.Upsert.Recorded.Preserved.{upsert_events_bulk-IsConsistent}
use omnisync.Events.Query.{EventFilterParams, response_of}
use omnisync.Events.Query.Listing.{listing}
use omnisync.Events.Query.Paging.{read_all, read_all-listing}

abbrev commit_event : NormalizedEvent
commit_event = record {
  id = 7;
  external_id = "c1";
  source = "github";
  author_id = "u1";
  author_name = "Ann";
  content = "first";
  event_type = "commit";
  timestamp = 50;
  raw_payload_id = none;
  created_at = 60;
  updated_at = 60;
  version = 1;
  schema_version = 1;
}

abbrev commit_version : EventVersion
commit_version = record {
  id = 8;
  event_id = 7;
  version = 1;
  content = "first";
  schema_version = 1;
  raw_payload_id = none;
  changed_by = none;
  changed_at = 60;
}

abbrev issue_event : NormalizedEvent
issue_event = record commit_event {
  id = 9;
  external_id = "i1";
  event_type = "issue";
  timestamp = 51;
}

abbrev store_with : List NormalizedEvent → Store
store_with evs = record {
  events = evs;
  versions = commit_version ∷ [];
  outbox = [];
  raw_payloads = [];
  failed_events = [];
  sync_states = [];
  sync_logs = [];
  deliveries = [];
  users = [];
}

abbrev one_event : Session
one_event = record {
  committed = store_with (commit_event ∷ []);
  db = store_with (commit_event ∷ []);
  world = record { uuids = λ n. n + 100; clock = λ n. n + 1000 };
}

abbrev create : String → String → NormalizedEventCreate
create external_id content = record {
  external_id = external_id;
  source = "github";
  author_id = "u1";
  author_name = "Ann";
  content = content;
  event_type = "commit";
  timestamp = 50;
  raw_payload_id = none;
  schema_version = 1;
}

-- A change of the stored event, a new one, and a second input for its key.
abbrev batch : List NormalizedEventCreate
batch = create "c1" "second" ∷ create "c2" "other" ∷ create "c2" "ignored" ∷ []

abbrev after_batch : Session
after_batch = (upsert_events_bulk batch none one_event).1

IsRecorded-first : (ev : NormalizedEvent) → commit_event ≡ ev → IsRecorded ev (commit_version ∷ [])
unfolding has_version
IsRecorded-first ev h =
    subst (λ e. IsRecorded e (commit_version ∷ [])) h
      record { current = refl; complete = λ n pos le. ground arith; bounded = λ n lt. ground arith }

one_event-IsConsistent : IsConsistent one_event.db
unfolding same_key
one_event-IsConsistent = record {
  unique = (refl, tt);
  ids = (tt, tt);
  recorded = λ k ev h. IsRecorded-first ev (ground arith);
}

one_event-HasFreshDraws : HasFreshDraws one_event
unfolding has_version
one_event-HasFreshDraws = record {
  distinct = λ m n h. omega arith;
  unused = λ m. (ground arith, tt);
  unrecorded = λ m n. ground arith;
}

upsert_events_bulk-IsConsistent_example :
    IsConsistent (upsert_events_bulk batch none one_event).1.db
upsert_events_bulk-IsConsistent_example =
    upsert_events_bulk-IsConsistent batch none one_event one_event-IsConsistent
      one_event-HasFreshDraws

upsert_events_bulk-event_of_input_example :
    (i : Uuid) × (event_of ("github", "c1") after_batch.db.events
      ≡ some (upserted 1000 i (some commit_event) (create "c1" "second")))
unfolding same_key
upsert_events_bulk-event_of_input_example =
    upsert_events_bulk-event_of_input batch none one_event (refl, tt) ("github", "c1")
      (create "c1" "second") refl

upsert_events_bulk_others_example :
    IsUnique after_batch.db.events
    × ((k : Key)
        → input_of k batch ≡ none
        → event_of k after_batch.db.events ≡ event_of k one_event.db.events)
upsert_events_bulk_others_example = upsert_events_bulk_others batch none one_event (refl, tt)

upsert_events_bulk-results_example :
    let (results, s') = upsert_events_bulk batch none one_event in
    (map some results ≡ map (λ e. event_of (key_of e) s'.db.events) (dedup batch))
    × IsExtended results [] s'.db.outbox
upsert_events_bulk-results_example = upsert_events_bulk-results batch none one_event (refl, tt)

upsert_events_bulk-keeps_versions_example :
    version_of 7 1 after_batch.db.versions ≡ some commit_version
unfolding has_version
upsert_events_bulk-keeps_versions_example =
    upsert_events_bulk-keeps_versions batch none one_event 7 1 commit_version refl

abbrev all_events : EventFilterParams
all_events = record {
  source = none;
  author_id = none;
  event_type = none;
  date_from = none;
  date_to = none;
  cursor = none;
}

abbrev two_events : Store
two_events = store_with (commit_event ∷ issue_event ∷ [])

two_events-HasDistinctIds : HasDistinctIds two_events.events
two_events-HasDistinctIds = ((ground arith, tt), (tt, tt))

read_all-listing_example :
    read_all unary_codec 3 all_events 1 two_events
    ≡ some (map response_of (listing all_events two_events))
read_all-listing_example =
    read_all-listing unary_codec all_events 1 3 two_events (omega arith) two_events-HasDistinctIds
      (omega arith)
