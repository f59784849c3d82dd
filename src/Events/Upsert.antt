-- ===== src/Events/Upsert.antt =====
-- `upsert_events_bulk` and `upsert_event` of src/events/service.py, in the order of the code: keep
-- one input for each key, read the stored rows, snapshot what is about to be overwritten, write the
-- rows by ON CONFLICT, reload them, snapshot the current versions, append to the outbox.
pub mod Keys
pub mod Rows
pub mod Frame
pub mod Effect
pub mod Results
pub mod History
pub mod Ids
pub mod Recorded
use omnisync.Base.{
  ℕ, suc, ◌+◌, String, Bool, true, false, not, ◌&&◌, Option, none, some, List, [], ◌∷◌, ◌++◌, map,
  str_eq, ◌==◌, if◌then◌else◌, any, first, select, is_some, Uuid, Timestamp, World, draw, tick,
}
use omnisync.Events.Model.{NormalizedEvent, EventVersion, NormalizedEventCreate}
use omnisync.Outbox.Enqueue.{enqueue_event}
use omnisync.Session.{Session, Store}

abbrev pub Key : Type 0
Key = String × String

unfoldable pub same_key : Key → Key → Bool
same_key (s, x) (s', x') = str_eq s s' && str_eq x x'

abbrev pub key_of : NormalizedEventCreate → Key
key_of e = (e.source, e.external_id)

abbrev pub event_key : NormalizedEvent → Key
event_key ev = (ev.source, ev.external_id)

abbrev pub has_key : Key → NormalizedEvent → Bool
has_key k ev = same_key (event_key ev) k

-- The loop over `events` with the set `seen`.
dedup_from : List Key → List NormalizedEventCreate → List NormalizedEventCreate
unfolding same_key
dedup_from seen [] = []
dedup_from seen (e ∷ es) = elim (any (same_key (key_of e)) seen) [
  | true ↦ dedup_from seen es
  | false ↦ e ∷ dedup_from (key_of e ∷ seen) es
]

pub dedup : List NormalizedEventCreate → List NormalizedEventCreate
unfolding dedup_from
dedup = dedup_from []

-- `SELECT … WHERE or_(conditions)`
pub reload : List NormalizedEventCreate → List NormalizedEvent → List NormalizedEvent
unfolding same_key
reload es = select (λ ev. any (λ e. same_key (event_key ev) (key_of e)) es)

-- `{(e.source, e.external_id): e for e in rows}.get(k)`: a later row replaces an earlier one.
pub map_get : Key → List NormalizedEvent → Option NormalizedEvent
unfolding same_key
map_get k [] = none
map_get k (ev ∷ rows) = elim (map_get k rows) [
  | some later_row ↦ some later_row
  | none ↦ if has_key k ev then some ev else none
]

unfoldable pub has_version : Uuid → ℕ → EventVersion → Bool
has_version i n v = v.event_id == i && v.version == n

pub version_row : Option String → NormalizedEvent → World → EventVersion
version_row changed_by ev w = record {
  id = w.uuids 0;
  event_id = ev.id;
  version = ev.version;
  content = ev.content;
  schema_version = ev.schema_version;
  raw_payload_id = ev.raw_payload_id;
  changed_by = changed_by;
  changed_at = w.clock 0;
}

-- The row is added unless the event has one of that version.
pub snapshot : Option String → NormalizedEvent → Session → Session
unfolding has_version version_row
snapshot changed_by ev s =
    if any (has_version ev.id ev.version) s.db.versions then s else record s {
      db = record s.db { versions = s.db.versions ++ version_row changed_by ev s.world ∷ [] };
      world = tick (draw s.world);
    }

content_changed : NormalizedEvent → NormalizedEventCreate → Bool
content_changed old e = not (str_eq old.content e.content)

target_version : Option NormalizedEvent → NormalizedEventCreate → ℕ
unfolding content_changed
target_version none e = 1
target_version (some old) e = if content_changed old e then old.version + 1 else old.version

pub snapshot_previous :
    Option String → Option NormalizedEvent → NormalizedEventCreate → Session → Session
unfolding content_changed
snapshot_previous changed_by none e s = s
snapshot_previous changed_by (some old) e s =
    if content_changed old e then snapshot changed_by old s else s

-- One element of `rows`, with its `uuid4()`.
pub row_of : Timestamp → Uuid → Option NormalizedEvent → NormalizedEventCreate → NormalizedEvent
unfolding target_version
row_of now i existing e = record {
  id = i;
  external_id = e.external_id;
  source = e.source;
  author_id = e.author_id;
  author_name = e.author_name;
  content = e.content;
  event_type = e.event_type;
  timestamp = e.timestamp;
  raw_payload_id = e.raw_payload_id;
  created_at = now;
  updated_at = now;
  version = target_version existing e;
  schema_version = e.schema_version;
}

-- The loop that fills `rows`; `stored` are the rows read before it.
pub build_rows :
    Timestamp
    → Option String
    → List NormalizedEvent
    → List NormalizedEventCreate
    → Session
    → List NormalizedEvent × Session
unfolding map_get snapshot_previous row_of
build_rows now changed_by stored [] s = ([], s)
build_rows now changed_by stored (e ∷ es) s =
    let existing = map_get (key_of e) stored in
    let s' = snapshot_previous changed_by existing e s in
    let row = row_of now (s'.world.uuids 0) existing e in
    let (rows, s'') = build_rows now changed_by stored es (record s' { world = draw s'.world }) in
    (row ∷ rows, s'')

-- `set_` of ON CONFLICT: all of the row but `id`, `created_at` and the key.
pub overwrite : NormalizedEvent → NormalizedEvent → NormalizedEvent
overwrite old row = record old {
  author_id = row.author_id;
  author_name = row.author_name;
  content = row.content;
  event_type = row.event_type;
  timestamp = row.timestamp;
  raw_payload_id = row.raw_payload_id;
  schema_version = row.schema_version;
  version = row.version;
  updated_at = row.updated_at;
}

-- `INSERT … ON CONFLICT (source, external_id) DO UPDATE` of one row.
pub insert_on_conflict : NormalizedEvent → List NormalizedEvent → List NormalizedEvent
unfolding same_key overwrite
insert_on_conflict row [] = row ∷ []
insert_on_conflict row (ev ∷ evs) =
    if has_key (event_key row) ev then overwrite ev row ∷ evs else ev ∷ insert_on_conflict row evs

pub insert_rows : List NormalizedEvent → List NormalizedEvent → List NormalizedEvent
unfolding insert_on_conflict
insert_rows [] evs = evs
insert_rows (row ∷ rows) evs = insert_rows rows (insert_on_conflict row evs)

-- `[final_map[key] for e in deduped if key in final_map]`
pub results_of : List NormalizedEventCreate → List NormalizedEvent → List NormalizedEvent
unfolding map_get
results_of [] rows = []
results_of (e ∷ es) rows = elim (map_get (key_of e) rows) [
  | none ↦ results_of es rows
  | some ev ↦ ev ∷ results_of es rows
]

-- The loops over `deduped` after the reload do something for each event that was found.
pub snapshot_all : Option String → List NormalizedEvent → Session → Session
unfolding snapshot
snapshot_all changed_by [] s = s
snapshot_all changed_by (ev ∷ evs) s = snapshot_all changed_by evs (snapshot changed_by ev s)

pub enqueue_all : List NormalizedEvent → Session → Session
unfolding enqueue_event
enqueue_all [] s = s
enqueue_all (ev ∷ evs) s = enqueue_all evs (enqueue_event ev s)

-- Up to the flush of the statement: the reads, the snapshots of what it overwrites, the rows.
pub write_rows : Option String → List NormalizedEventCreate → Session → Session
unfolding build_rows insert_rows reload
write_rows changed_by deduped s =
    let stored = reload deduped s.db.events in
    let (rows, s') =
      build_rows (s.world.clock 0) changed_by stored deduped (record s { world = tick s.world }) in
    record s' { db = record s'.db { events = insert_rows rows s'.db.events } }

pub upsert_deduped :
    Option String → List NormalizedEventCreate → Session → List NormalizedEvent × Session
unfolding write_rows reload results_of snapshot_all enqueue_all
upsert_deduped changed_by deduped s =
    let s' = write_rows changed_by deduped s in
    let results = results_of deduped (reload deduped s'.db.events) in
    (results, enqueue_all results (snapshot_all changed_by results s'))

unfoldable pub upsert_events_bulk :
    List NormalizedEventCreate → Option String → Session → List NormalizedEvent × Session
unfolding dedup upsert_deduped
upsert_events_bulk [] changed_by s = ([], s)
upsert_events_bulk (e ∷ es) changed_by s = upsert_deduped changed_by (dedup (e ∷ es)) s

-- `results[0]`; `none` is its IndexError.
unfoldable pub upsert_event :
    NormalizedEventCreate → Option String → Session → Option NormalizedEvent × Session
unfolding upsert_events_bulk
upsert_event e changed_by s =
    let (results, s') = upsert_events_bulk (e ∷ []) changed_by s in (first (λ _. true) results, s')
