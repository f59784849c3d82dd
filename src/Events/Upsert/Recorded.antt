-- ===== src/Events/Upsert/Recorded.antt =====
-- `event_versions` is a complete history: each event has a row for every version from 1 to its own,
-- the last with its content, and none beyond.
pub mod Snapshots
pub mod Preserved
use omnisync.Base.{ℕ, ◌≤◌, ◌<◌, ◌≡◌, Option, none, some, String, List, Bool, true, is_some, Uuid}
use omnisync.Session.{Session, Store}
use omnisync.Events.Model.{NormalizedEvent, EventVersion}
use omnisync.Events.Upsert.{Key}
use omnisync.Events.Upsert.Rows.{event_of, IsUnique}
use omnisync.Events.Upsert.History.{version_of}
use omnisync.Events.Upsert.Ids.{HasDistinctIds, IsFreshId, DrawsDistinct}

abbrev pub content_in : Option EventVersion → Option String
content_in none = none
content_in (some v) = some v.content

-- The content that is recorded for a version of an event.
abbrev pub content_of : Uuid → ℕ → List EventVersion → Option String
content_of i n vs = content_in (version_of i n vs)

pub record IsRecorded (ev : NormalizedEvent) (vs : List EventVersion) : Type 0 where
  pub current : content_of ev.id ev.version vs ≡ some ev.content
  pub complete : (n : ℕ) → 1 ≤ n → n ≤ ev.version → is_some (content_of ev.id n vs) ≡ true
  pub bounded : (n : ℕ) → ev.version < n → content_of ev.id n vs ≡ none

pub record IsConsistent (st : Store) : Type 0 where
  pub unique : IsUnique st.events
  pub ids : HasDistinctIds st.events
  pub recorded :
      (k : Key) (ev : NormalizedEvent) → event_of k st.events ≡ some ev → IsRecorded ev st.versions

-- The UUIDs to come are new: no event has one, no version refers to one, and none comes twice.
pub record HasFreshDraws (s : Session) : Type 0 where
  pub distinct : DrawsDistinct s.world
  pub unused : (m : ℕ) → IsFreshId (s.world.uuids m) s.db.events
  pub unrecorded : (m n : ℕ) → content_of (s.world.uuids m) n s.db.versions ≡ none
