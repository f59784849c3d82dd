-- ===== src/Events/Upsert/History.antt =====
-- The version table under the snapshots of an upsert: rows are only added, and at most one for
-- each event and version.
use omnisync.Base.{
  ℕ, ◌≡◌, ◌∙◌, ap, Option, String, none, some, List, [], ◌∷◌, arith, Bool, ◌&&◌, ◌==◌,
  if◌then◌else◌, first, any-eq-first, first-append, Uuid, Timestamp, draw, tick,
}
use omnisync.Session.{Session, Store}
use omnisync.Events.Model.{NormalizedEvent, NormalizedEventCreate, EventVersion}
use omnisync.Events.Upsert.{
  key_of, map_get, has_version, version_row, snapshot, snapshot_previous, build_rows, snapshot_all,
  write_rows, upsert_deduped, upsert_events_bulk, enqueue_all, dedup, results_of, reload,
}
use omnisync.Events.Upsert.Frame.{enqueue_all_frame}

-- The row of an event's version.
abbrev pub version_of : Uuid → ℕ → List EventVersion → Option EventVersion
version_of i n = first (has_version i n)

-- A snapshot changes one entry, and that only if it was empty.
abbrev filled : Bool → EventVersion → Option EventVersion → Option EventVersion
filled hit row (some v) = some v
filled hit row none = if hit then some row else none

pub version_of-snapshot :
    (i : Uuid) (n : ℕ) (by : Option String) (ev : NormalizedEvent) (s : Session)
    → version_of i n (snapshot by ev s).db.versions
      ≡ filled
          (ev.id == i && ev.version == n)
          (version_row by ev s.world)
          (version_of i n s.db.versions)
unfolding snapshot
version_of-snapshot i n by ev s = ground (
  arith,
  any-eq-first (has_version ev.id ev.version) s.db.versions,
  first-append (has_version i n) s.db.versions (version_row by ev s.world ∷ []),
)

-- What was recorded stays as it was written.
abbrev Keeps : Session → Session → Type 0
Keeps s t =
    (i : Uuid) (n : ℕ) (v : EventVersion)
    → version_of i n s.db.versions ≡ some v
    → version_of i n t.db.versions ≡ some v

Keeps-snapshot :
    (by : Option String) (ev : NormalizedEvent) (s : Session) → Keeps s (snapshot by ev s)
Keeps-snapshot by ev s i n v h = ground (arith, version_of-snapshot i n by ev s)

Keeps-snapshot_previous :
    (by : Option String) (old : Option NormalizedEvent) (e : NormalizedEventCreate) (s : Session)
    → Keeps s (snapshot_previous by old e s)
unfolding snapshot_previous
Keeps-snapshot_previous by none e s i n v h = h
Keeps-snapshot_previous by (some old) e s i n v h = ground (arith, Keeps-snapshot by old s i n v h)

Keeps-build_rows :
    (now : Timestamp) (by : Option String) (stored : List NormalizedEvent)
    (es : List NormalizedEventCreate) (s : Session)
    → Keeps s (build_rows now by stored es s).1
unfolding build_rows
Keeps-build_rows now by stored [] s i n v h = h
Keeps-build_rows now by stored (e ∷ es) s i n v h =
    let s' = snapshot_previous by (map_get (key_of e) stored) e s in
    Keeps-build_rows now by stored es (record s' { world = draw s'.world }) i n v
      (Keeps-snapshot_previous by (map_get (key_of e) stored) e s i n v h)

Keeps-snapshot_all :
    (by : Option String) (evs : List NormalizedEvent) (s : Session)
    → Keeps s (snapshot_all by evs s)
unfolding snapshot_all
Keeps-snapshot_all by [] s i n v h = h
Keeps-snapshot_all by (ev ∷ evs) s i n v h =
    Keeps-snapshot_all by evs (snapshot by ev s) i n v (Keeps-snapshot by ev s i n v h)

pub versions-enqueue_all :
    (evs : List NormalizedEvent) (s : Session) → (enqueue_all evs s).db.versions ≡ s.db.versions
versions-enqueue_all evs s = ap (λ (t : Store). t.versions) (enqueue_all_frame evs s)

-- A version that was recorded is never changed or lost by a bulk upsert.
pub upsert_events_bulk-keeps_versions :
    (es : List NormalizedEventCreate) (by : Option String) (s : Session) (i : Uuid) (n : ℕ)
    (v : EventVersion)
    → version_of i n s.db.versions ≡ some v
    → version_of i n (upsert_events_bulk es by s).1.db.versions ≡ some v
unfolding upsert_events_bulk upsert_deduped write_rows
upsert_events_bulk-keeps_versions [] by s i n v h = h
upsert_events_bulk-keeps_versions (e ∷ es) by s i n v h =
    let ds = dedup (e ∷ es) in
    let s' = write_rows by ds s in
    let results = results_of ds (reload ds s'.db.events) in
    ap (version_of i n) (versions-enqueue_all results (snapshot_all by results s'))
    ∙ Keeps-snapshot_all by results s' i n v (
        Keeps-build_rows (s.world.clock 0) by (reload ds s.db.events) ds
          (record s { world = tick s.world }) i n v h)
