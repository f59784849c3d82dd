-- ===== src/Events/Upsert/Effect.antt =====
-- What an upsert makes of the table `normalized_events`, key by key.
use omnisync.Base.{
  ◌+◌, ◌≡◌, refl, ◌∙◌, sym, ap, subst, String, Option, none, some, List, [], ◌∷◌, arith, str_eq,
  if◌then◌else◌, Uuid, Timestamp, tick,
}
use omnisync.Session.{Session, Store}
use omnisync.Events.Model.{NormalizedEvent, NormalizedEventCreate}
use omnisync.Events.Upsert.{
  Key, key_of, map_get, row_of, reload, build_rows, insert_rows, overwrite, results_of,
  snapshot_all, write_rows, upsert_deduped, upsert_events_bulk, dedup,
}
use omnisync.Events.Upsert.Keys.{input_of, key-input_of, IsDeduped, input_of-dedup, dedup-IsDeduped}
use omnisync.Events.Upsert.Rows.{
  event_of, IsUnique, map_get-eq-event_of, event_of-reload, reload-IsUnique, insert_rows-IsUnique,
  after_rows, event_of-insert_rows, build_rows-event_of, build_rows-event_of-none,
  build_rows-IsUnique,
}
use omnisync.Events.Upsert.Frame.{build_rows_frame, snapshot_all_frame, enqueue_all_frame}

-- The row that an input stands for: version 1 for a new key; for a stored one the same id and
-- creation time, and the next version if the content differs.
abbrev pub upserted :
    Timestamp → Uuid → Option NormalizedEvent → NormalizedEventCreate → NormalizedEvent
upserted now i none e = record {
  id = i;
  external_id = e.external_id;
  source = e.source;
  author_id = e.author_id;
  author_name = e.author_name;
  content = e.content;
  event_type = e.event_type;
  timestamp = e.timestamp;
  raw_payload_id = e.raw_payload_id;
  created_at = now;
  updated_at = now;
  version = 1;
  schema_version = e.schema_version;
}
upserted now i (some old) e = record old {
  author_id = e.author_id;
  author_name = e.author_name;
  content = e.content;
  event_type = e.event_type;
  timestamp = e.timestamp;
  raw_payload_id = e.raw_payload_id;
  updated_at = now;
  version = if str_eq old.content e.content then old.version else old.version + 1;
  schema_version = e.schema_version;
}

after_rows-upserted :
    (now : Timestamp) (i : Uuid) (stored : Option NormalizedEvent) (e : NormalizedEventCreate)
    → after_rows (some (row_of now i stored e)) stored ≡ some (upserted now i stored e)
unfolding row_of overwrite
after_rows-upserted now i none e = refl
after_rows-upserted now i (some old) e = ground arith

-- The session in which `rows` are written, and the table after it.
abbrev pub start : Session → Session
start s = record s { world = tick s.world }

abbrev pub rows_for :
    Option String → List NormalizedEventCreate → Session → List NormalizedEvent × Session
rows_for by es s = build_rows (s.world.clock 0) by (reload es s.db.events) es (start s)

pub events-write_rows :
    (by : Option String) (es : List NormalizedEventCreate) (s : Session)
    → (write_rows by es s).db.events ≡ insert_rows (rows_for by es s).0 s.db.events
unfolding write_rows
events-write_rows by es s =
    ap (λ (d : Store). insert_rows (rows_for by es s).0 d.events)
      (build_rows_frame (s.world.clock 0) by (reload es s.db.events) es (start s))

pub events-upsert_deduped :
    (by : Option String) (es : List NormalizedEventCreate) (s : Session)
    → (upsert_deduped by es s).1.db.events ≡ (write_rows by es s).db.events
unfolding upsert_deduped
events-upsert_deduped by es s =
    let s' = write_rows by es s in
    let results = results_of es (reload es s'.db.events) in
    ap (λ (d : Store). d.events) (enqueue_all_frame results (snapshot_all by results s'))
    ∙ ap (λ (d : Store). d.events) (snapshot_all_frame by results s')

-- `existing_map.get(key)` is the stored row of the key.
pub existing-eq-event_of :
    (es : List NormalizedEventCreate) (evs : List NormalizedEvent) (k : Key)
    {e : NormalizedEventCreate}
    → IsUnique evs
    → input_of k es ≡ some e
    → map_get (key_of e) (reload es evs) ≡ event_of k evs
existing-eq-event_of es evs k {e} u h =
    ap (λ j. map_get j (reload es evs)) (key-input_of k es h)
    ∙ map_get-eq-event_of k (reload es evs) (reload-IsUnique es evs u)
    ∙ event_of-reload k es evs e h

module _ (by : Option String) (es : List NormalizedEventCreate) (s : Session) (d : IsDeduped es)
    (u : IsUnique s.db.events) where
  pub write_rows-event_of :
      (k : Key)
      → event_of k (write_rows by es s).db.events
        ≡ after_rows (event_of k (rows_for by es s).0) (event_of k s.db.events)
  write_rows-event_of k =
      ap (event_of k) (events-write_rows by es s)
      ∙ event_of-insert_rows k (rows_for by es s).0 s.db.events
          (build_rows-IsUnique (s.world.clock 0) by (reload es s.db.events) es (start s) d)

  pub write_rows-event_of_input :
      (k : Key) (e : NormalizedEventCreate)
      → input_of k es ≡ some e
      → (i : Uuid) × (event_of k (write_rows by es s).db.events
          ≡ some (upserted (s.world.clock 0) i (event_of k s.db.events) e))
  write_rows-event_of_input k e h =
      let now = s.world.clock 0 in
      let found = build_rows-event_of now by (reload es s.db.events) k es (start s) e h in
      (
        found.0,
        write_rows-event_of k
            ∙ ap (λ r. after_rows r (event_of k s.db.events)) found.1
            ∙ ap (λ o. after_rows (some (row_of now found.0 o e)) (event_of k s.db.events))
                (existing-eq-event_of es s.db.events k u h)
            ∙ after_rows-upserted now found.0 (event_of k s.db.events) e,
      )

  pub write_rows-event_of_other :
      (k : Key)
      → input_of k es ≡ none
      → event_of k (write_rows by es s).db.events ≡ event_of k s.db.events
  write_rows-event_of_other k h =
      write_rows-event_of k
      ∙ ap (λ r. after_rows r (event_of k s.db.events))
          (build_rows-event_of-none (s.world.clock 0) by (reload es s.db.events) k es (start s) h)

  pub write_rows-IsUnique : IsUnique (write_rows by es s).db.events
  write_rows-IsUnique =
      subst IsUnique (sym (events-write_rows by es s))
        (insert_rows-IsUnique (rows_for by es s).0 s.db.events u)

-- After a bulk upsert of any batch, over a table that meets its unique constraint: the first input
-- of each key decides the row of that key. A new key gets version 1; a stored row keeps its id,
-- key and creation time, takes the other fields, and its version grows by one exactly when the
-- content differs.
pub upsert_events_bulk-event_of_input :
    (es : List NormalizedEventCreate) (by : Option String) (s : Session)
    → IsUnique s.db.events
    → (k : Key) (e : NormalizedEventCreate) → input_of k es ≡ some e
    → (i : Uuid) × (event_of k (upsert_events_bulk es by s).1.db.events
        ≡ some (upserted (s.world.clock 0) i (event_of k s.db.events) e))
unfolding upsert_events_bulk
upsert_events_bulk-event_of_input [] by s u k e h = absurd (cc)
upsert_events_bulk-event_of_input (e' ∷ es) by s u k e h =
    let ds = dedup (e' ∷ es) in
    let found =
      write_rows-event_of_input by ds s (dedup-IsDeduped (e' ∷ es)) u k e
        (input_of-dedup k (e' ∷ es) ∙ h) in
    (found.0, ap (event_of k) (events-upsert_deduped by ds s) ∙ found.1)

-- Keys outside the batch keep their rows, and the unique constraint holds again.
pub upsert_events_bulk_others :
    (es : List NormalizedEventCreate) (by : Option String) (s : Session)
    → IsUnique s.db.events
    → IsUnique (upsert_events_bulk es by s).1.db.events
      × ((k : Key)
          → input_of k es ≡ none
          → event_of k (upsert_events_bulk es by s).1.db.events ≡ event_of k s.db.events)
unfolding upsert_events_bulk
upsert_events_bulk_others [] by s u = (u, λ k h. refl)
upsert_events_bulk_others (e ∷ es) by s u =
    let ds = dedup (e ∷ es) in
    let d = dedup-IsDeduped (e ∷ es) in
    (
      subst IsUnique (sym (events-upsert_deduped by ds s)) (write_rows-IsUnique by ds s d u),
      λ k h.
          ap (event_of k) (events-upsert_deduped by ds s)
          ∙ write_rows-event_of_other by ds s d u k (input_of-dedup k (e ∷ es) ∙ h),
    )
