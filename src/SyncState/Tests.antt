-- ===== src/SyncState/Tests.antt =====
-- Concrete runs of the watermarks.
use omnisync.Base.{◌+◌, ◌≡◌, refl, none, some, [], ◌∷◌}
use omnisync.Session.{Session, Store}
use omnisync.SyncState.{get_cursor, set_cursor}

abbrev no_rows : Store
no_rows = record {
  events = [];
  versions = [];
  outbox = [];
  raw_payloads = [];
  failed_events = [];
  sync_states = [];
  sync_logs = [];
  deliveries = [];
  users = [];
}

abbrev one_cursor : Store
one_cursor = record no_rows {
  sync_states =
      record {
        id = 2;
        source = "jira";
        stream = "default";
        cursor = some "2026-01-01";
        updated_at = 50;
      }
      ∷ [];
}

abbrev session : Session
session = record {
  committed = one_cursor;
  db = one_cursor;
  world = record { uuids = λ n. n + 100; clock = λ n. n + 1000 };
}

cursor_moved :
    get_cursor "jira" "default" (set_cursor "jira" (some "2026-02-01") "default" session).db
    ≡ some "2026-02-01"
unfolding get_cursor set_cursor
cursor_moved = refl

cursor_of_another :
    get_cursor "imap" "default" (set_cursor "jira" (some "2026-02-01") "default" session).db ≡ none
unfolding get_cursor set_cursor
cursor_of_another = refl
