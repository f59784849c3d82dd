-- ===== src/Events/Upsert/Results.antt =====
-- What an upsert returns, and what it appends to the outbox.
use omnisync.Base.{
  ◌≡◌, refl, none, subst, ◌∙◌, sym, ap, Option, String, some, List, [], ◌∷◌, ◌++◌, map, arith, All,
  All-map, map_congr, tick,
}
use mathlib.Core.List.{append_assoc, append-nil}
use omnisync.Session.{Session, Store}
use omnisync.Events.Model.{NormalizedEvent, NormalizedEventCreate}
use omnisync.Outbox.Enqueue.{enqueue_event, payload_of}
use omnisync.Outbox.Model.{OutboxEvent, Status}
use omnisync.Events.Upsert.{
  key_of, map_get, reload, results_of, snapshot_all, enqueue_all, write_rows, upsert_deduped,
  upsert_events_bulk, dedup,
}
use omnisync.Events.Upsert.Keys.{input_of, IsDeduped, dedup-IsDeduped, IsDeduped-inputs}
use omnisync.Events.Upsert.Rows.{event_of, IsUnique}
use omnisync.Events.Upsert.Frame.{build_rows_frame, snapshot_all_frame}
use omnisync.Events.Upsert.Effect.{
  existing-eq-event_of, events-upsert_deduped, write_rows-event_of_input, write_rows-IsUnique,
}

-- The outbox row of an event, in all but its id and its time.
abbrev pub IsEntryOf : NormalizedEvent → OutboxEvent → Type 0
IsEntryOf ev o = o ≡ record {
  id = o.id;
  aggregate_type = "normalized_event";
  aggregate_id = ev.id;
  event_type = ev.event_type;
  payload = record {
    event_id = ev.id;
    source = ev.source;
    external_id = ev.external_id;
    event_type = ev.event_type;
    content = ev.content;
    version = ev.version;
    schema_version = ev.schema_version;
  };
  status = Status.pending;
  attempts = 0;
  last_error = none;
  created_at = o.created_at;
  published_at = none;
}

-- One row for each event, in their order.
abbrev pub AreEntriesOf : List NormalizedEvent → List OutboxEvent → Type 0
AreEntriesOf [] rows = rows ≡ []
AreEntriesOf (ev ∷ evs) rows =
    (o : OutboxEvent) × (rest : List OutboxEvent) × (rows ≡ o ∷ rest)
    × IsEntryOf ev o
    × AreEntriesOf evs rest

-- A table that has grown by the rows of the events.
abbrev pub IsExtended : List NormalizedEvent → List OutboxEvent → List OutboxEvent → Type 0
IsExtended evs before after =
    (new : List OutboxEvent) × (after ≡ before ++ new) × AreEntriesOf evs new

outbox-enqueue_all :
    (evs : List NormalizedEvent) (s : Session)
    → IsExtended evs s.db.outbox (enqueue_all evs s).db.outbox
unfolding enqueue_all enqueue_event payload_of
outbox-enqueue_all [] s = ([], sym (append-nil s.db.outbox), refl)
outbox-enqueue_all (ev ∷ evs) s =
    let rest = outbox-enqueue_all evs (enqueue_event ev s) in
    (_ ∷ rest.0, rest.1 ∙ append_assoc s.db.outbox (_ ∷ []) rest.0, (_, rest.0, refl, refl, rest.2))

results_of-found :
    (rows : List NormalizedEvent) (ds : List NormalizedEventCreate)
    → All (λ e. (ev : NormalizedEvent) × (map_get (key_of e) rows ≡ some ev)) ds
    → map some (results_of ds rows) ≡ map (λ e. map_get (key_of e) rows) ds
unfolding results_of
results_of-found rows [] h = refl
results_of-found rows (e ∷ ds) h = ground (arith, h.0.1, results_of-found rows ds h.1)

module _ (by : Option String) (es : List NormalizedEventCreate) (s : Session) (d : IsDeduped es)
    (u : IsUnique s.db.events) where
  abbrev pub written : List NormalizedEvent
  written = (write_rows by es s).db.events

  reload_found :
      (e : NormalizedEventCreate)
      → input_of (key_of e) es ≡ some e
      → map_get (key_of e) (reload es written) ≡ event_of (key_of e) written
  reload_found e h = existing-eq-event_of es written (key_of e) (write_rows-IsUnique by es s d u) h

  pub upsert_deduped_results :
      map some (upsert_deduped by es s).0 ≡ map (λ e. event_of (key_of e) written) es
  unfolding upsert_deduped
  upsert_deduped_results =
      results_of-found (reload es written) es (
        All-map
          (λ e h.
            let found = write_rows-event_of_input by es s d u (key_of e) e h in
            (_, reload_found e h ∙ found.1))
          es (IsDeduped-inputs es d))
      ∙ map_congr _ _ es (All-map (λ e h. reload_found e h) es (IsDeduped-inputs es d))

  outbox-write_rows : (write_rows by es s).db.outbox ≡ s.db.outbox
  unfolding write_rows
  outbox-write_rows =
      ap (λ (t : Store). t.outbox)
        (build_rows_frame (s.world.clock 0) by (reload es s.db.events) es
          (record s { world = tick s.world }))

  outbox-upsert_deduped :
      IsExtended (upsert_deduped by es s).0 s.db.outbox (upsert_deduped by es s).1.db.outbox
  unfolding upsert_deduped
  outbox-upsert_deduped =
      let results = results_of es (reload es written) in
      subst (λ before. IsExtended results before (upsert_deduped by es s).1.db.outbox)
        (ap (λ (t : Store). t.outbox) (snapshot_all_frame by results (write_rows by es s))
          ∙ outbox-write_rows)
        (outbox-enqueue_all results (snapshot_all by results (write_rows by es s)))

-- A bulk upsert, over a table that meets its unique constraint, returns one row for each distinct
-- key of the batch, in the order of the first occurrences, and that row is the one stored under
-- the key afterwards. The outbox is the earlier rows as they were, followed by one row for each
-- returned row, in that order: it carries the id, the type and the contents of that row, and it is
-- pending, with no attempts and no error.
pub upsert_events_bulk-results :
    (es : List NormalizedEventCreate) (by : Option String) (s : Session)
    → IsUnique s.db.events
    → let (results, s') = upsert_events_bulk es by s in
      (map some results ≡ map (λ e. event_of (key_of e) s'.db.events) (dedup es))
      × IsExtended results s.db.outbox s'.db.outbox
unfolding upsert_events_bulk dedup
upsert_events_bulk-results [] by s u = (refl, ([], sym (append-nil s.db.outbox), refl))
upsert_events_bulk-results (e ∷ es) by s u =
    let ds = dedup (e ∷ es) in
    let d = dedup-IsDeduped (e ∷ es) in
    (
      upsert_deduped_results by ds s d u
          ∙ ap (λ (t : List NormalizedEvent). map (λ x. event_of (key_of x) t) ds)
              (sym (events-upsert_deduped by ds s)),
      outbox-upsert_deduped by ds s d u,
    )
