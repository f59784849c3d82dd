-- ===== src/Events/Upsert/Frame.antt =====
-- What the steps of an upsert leave alone.
use omnisync.Base.{◌≡◌, refl, ap, ◌∙◌, tick, Option, String, List, [], ◌∷◌, arith, Timestamp, draw}
use omnisync.Session.{Session, Store}
use omnisync.Events.Model.{NormalizedEvent, NormalizedEventCreate}
use omnisync.Events.Upsert.{
  key_of, map_get, snapshot, snapshot_previous, build_rows, snapshot_all, enqueue_all, dedup,
  write_rows, results_of, reload, upsert_deduped, upsert_events_bulk,
}
use omnisync.Outbox.Enqueue.{enqueue_event}

-- The snapshots write to the version table alone.
abbrev pub SameButVersions : Store → Store → Type 0
SameButVersions a b = a ≡ record b { versions = a.versions }

pub snapshot_frame :
    (by : Option String) (ev : NormalizedEvent) (s : Session)
    → SameButVersions (snapshot by ev s).db s.db
unfolding snapshot
snapshot_frame by ev s = ground arith

pub snapshot_previous_frame :
    (by : Option String) (old : Option NormalizedEvent) (e : NormalizedEventCreate) (s : Session)
    → SameButVersions (snapshot_previous by old e s).db s.db
unfolding snapshot_previous snapshot
snapshot_previous_frame by old e s = ground arith

pub build_rows_frame :
    (now : Timestamp) (by : Option String) (stored : List NormalizedEvent)
    (es : List NormalizedEventCreate) (s : Session)
    → SameButVersions (build_rows now by stored es s).1.db s.db
unfolding build_rows
build_rows_frame now by stored [] s = refl
build_rows_frame now by stored (e ∷ es) s =
    let s' = snapshot_previous by (map_get (key_of e) stored) e s in
    cc (
      build_rows_frame now by stored es (record s' { world = draw s'.world }),
      snapshot_previous_frame by (map_get (key_of e) stored) e s,
    )

pub snapshot_all_frame :
    (by : Option String) (evs : List NormalizedEvent) (s : Session)
    → SameButVersions (snapshot_all by evs s).db s.db
unfolding snapshot_all
snapshot_all_frame by [] s = refl
snapshot_all_frame by (ev ∷ evs) s =
    cc (snapshot_all_frame by evs (snapshot by ev s), snapshot_frame by ev s)

-- The outbox loop writes to the outbox alone.
pub enqueue_all_frame :
    (evs : List NormalizedEvent) (s : Session)
    → (enqueue_all evs s).db ≡ record s.db { outbox = (enqueue_all evs s).db.outbox }
unfolding enqueue_all enqueue_event
enqueue_all_frame [] s = refl
enqueue_all_frame (ev ∷ evs) s = cc (enqueue_all_frame evs (enqueue_event ev s))

-- A store without what an upsert writes.
abbrev pub beside_events : Store → Store
beside_events d = record d { events = []; versions = []; outbox = [] }

-- An upsert leaves the other tables alone.
pub upsert_events_bulk_frame :
    (es : List NormalizedEventCreate) (by : Option String) (s : Session)
    → beside_events (upsert_events_bulk es by s).1.db ≡ beside_events s.db
unfolding upsert_events_bulk upsert_deduped write_rows
upsert_events_bulk_frame [] by s = refl
upsert_events_bulk_frame (e ∷ es) by s =
    let ds = dedup (e ∷ es) in
    let s' = write_rows by ds s in
    let results = results_of ds (reload ds s'.db.events) in
    ap beside_events (enqueue_all_frame results (snapshot_all by results s'))
    ∙ ap beside_events (snapshot_all_frame by results s')
    ∙ ap beside_events (
        build_rows_frame (s.world.clock 0) by (reload ds s.db.events) ds
          (record s { world = tick s.world }))

pub sync_states-upsert_events_bulk :
    (es : List NormalizedEventCreate) (by : Option String) (s : Session)
    → (upsert_events_bulk es by s).1.db.sync_states ≡ s.db.sync_states
sync_states-upsert_events_bulk es by s =
    ap (λ (d : Store). d.sync_states) (upsert_events_bulk_frame es by s)

pub deliveries-upsert_events_bulk :
    (es : List NormalizedEventCreate) (by : Option String) (s : Session)
    → (upsert_events_bulk es by s).1.db.deliveries ≡ s.db.deliveries
deliveries-upsert_events_bulk es by s =
    ap (λ (d : Store). d.deliveries) (upsert_events_bulk_frame es by s)

pub sync_logs-upsert_events_bulk :
    (es : List NormalizedEventCreate) (by : Option String) (s : Session)
    → (upsert_events_bulk es by s).1.db.sync_logs ≡ s.db.sync_logs
sync_logs-upsert_events_bulk es by s =
    ap (λ (d : Store). d.sync_logs) (upsert_events_bulk_frame es by s)

-- An upsert commits nothing.
committed-snapshot :
    (by : Option String) (ev : NormalizedEvent) (s : Session)
    → (snapshot by ev s).committed ≡ s.committed
unfolding snapshot
committed-snapshot by ev s = ground arith

committed-snapshot_previous :
    (by : Option String) (old : Option NormalizedEvent) (e : NormalizedEventCreate) (s : Session)
    → (snapshot_previous by old e s).committed ≡ s.committed
unfolding snapshot_previous snapshot
committed-snapshot_previous by old e s = ground arith

committed-build_rows :
    (now : Timestamp) (by : Option String) (stored : List NormalizedEvent)
    (es : List NormalizedEventCreate) (s : Session)
    → (build_rows now by stored es s).1.committed ≡ s.committed
unfolding build_rows
committed-build_rows now by stored [] s = refl
committed-build_rows now by stored (e ∷ es) s =
    let s' = snapshot_previous by (map_get (key_of e) stored) e s in
    committed-build_rows now by stored es (record s' { world = draw s'.world })
    ∙ committed-snapshot_previous by (map_get (key_of e) stored) e s

committed-snapshot_all :
    (by : Option String) (evs : List NormalizedEvent) (s : Session)
    → (snapshot_all by evs s).committed ≡ s.committed
unfolding snapshot_all
committed-snapshot_all by [] s = refl
committed-snapshot_all by (ev ∷ evs) s =
    committed-snapshot_all by evs (snapshot by ev s) ∙ committed-snapshot by ev s

committed-enqueue_all :
    (evs : List NormalizedEvent) (s : Session) → (enqueue_all evs s).committed ≡ s.committed
unfolding enqueue_all enqueue_event
committed-enqueue_all [] s = refl
committed-enqueue_all (ev ∷ evs) s = committed-enqueue_all evs (enqueue_event ev s)

pub committed-upsert_events_bulk :
    (es : List NormalizedEventCreate) (by : Option String) (s : Session)
    → (upsert_events_bulk es by s).1.committed ≡ s.committed
unfolding upsert_events_bulk upsert_deduped write_rows
committed-upsert_events_bulk [] by s = refl
committed-upsert_events_bulk (e ∷ es) by s =
    let ds = dedup (e ∷ es) in
    let s' = write_rows by ds s in
    let results = results_of ds (reload ds s'.db.events) in
    committed-enqueue_all results (snapshot_all by results s')
    ∙ committed-snapshot_all by results s'
    ∙ committed-build_rows (s.world.clock 0) by (reload ds s.db.events) ds
        (record s { world = tick s.world })
