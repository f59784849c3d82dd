-- ===== src/Events/Upsert/Recorded/Preserved.antt =====
-- A bulk upsert keeps the history complete.
use omnisync.Base.{
  ℕ, ◌+◌, ◌≤◌, ◌<◌, ◌≡◌, sym, ap, subst, ◌∙◌, inl, inr, ◌⊎◌, Option, none, some, String, List, [],
  ◌∷◌, map, true, is_some, All, Uuid, arith, eq_iff, str_eq, Bool-cases, Option-cases,
}
use omnisync.Session.{Session}
use omnisync.Events.Model.{NormalizedEvent, NormalizedEventCreate}
use omnisync.Events.Upsert.{
  Key, key_of, reload, snapshot_all, results_of, write_rows, upsert_deduped, upsert_events_bulk,
  dedup, has_key,
}
use omnisync.Events.Upsert.Keys.{input_of, IsDeduped, dedup-IsDeduped, same_key_iff}
use omnisync.Events.Upsert.Rows.{
  event_of, IsUnique, map_get-eq-event_of, event_of-unreload, reload-IsUnique,
}
use omnisync.Events.Upsert.Effect.{
  rows_for, start, events-write_rows, events-upsert_deduped, write_rows-event_of,
  write_rows-event_of_input, write_rows-event_of_other, write_rows-IsUnique,
}
use omnisync.Events.Upsert.Results.{upsert_deduped_results}
use omnisync.Events.Upsert.History.{versions-enqueue_all}
use omnisync.Events.Upsert.Ids.{
  HasDistinctIds, IsFreshId, event_of-id, insert_rows-HasDistinctIds, build_rows-have,
  build_rows-HasDistinctIds,
}
use omnisync.Events.Upsert.Recorded.{content_of, IsRecorded, IsConsistent, HasFreshDraws}
use omnisync.Events.Upsert.Recorded.Snapshots.{
  first_content, Agree, IsRecorded-after, versions-build_rows,
}

event_of-All :
    (P : NormalizedEvent → Type 0) (k : Key) (evs : List NormalizedEvent) {a : NormalizedEvent}
    → All P evs
    → event_of k evs ≡ some a
    → P a
event_of-All P k [] h e = absurd (cc)
event_of-All P k (ev ∷ evs) {a} h e = elim (Bool-cases (has_key k ev)) [
  | inl here ↦ let q : ev ≡ a = ground arith in subst P q h.0
  | inr there ↦ event_of-All P k evs {a = a} h.1 (ground arith)
]

module _ (t : List NormalizedEvent) where
  -- The results are the stored rows of the inputs.
  abbrev Stored : List NormalizedEventCreate → List NormalizedEvent → Type 0
  Stored ds rs = map some rs ≡ map (λ e. event_of (key_of e) t) ds

  Agree-results :
      (k : Key) (ev : NormalizedEvent) (ds : List NormalizedEventCreate) (rs : List NormalizedEvent)
      → HasDistinctIds t
      → event_of k t ≡ some ev
      → Stored ds rs
      → Agree ev rs
  Agree-results k ev ds [] d h q = tt
  Agree-results k ev [] (r ∷ rs) d h q = absurd (cc)
  Agree-results k ev (e ∷ ds) (r ∷ rs) d h q = (
    λ i. event_of-id (key_of e) k t d (ground arith) h i,
    Agree-results k ev ds rs d h (ground arith),
  )

  first_content-results :
      (k : Key) (ev : NormalizedEvent) (ds : List NormalizedEventCreate) (rs : List NormalizedEvent)
      → (e : NormalizedEventCreate) → event_of k t ≡ some ev
      → Agree ev rs
      → Stored ds rs
      → input_of k ds ≡ some e
      → first_content ev.id ev.version rs ≡ some ev.content
  first_content-results k ev [] rs e h a q i = absurd (cc)
  first_content-results k ev (e' ∷ ds) [] e h a q i = absurd (cc)
  first_content-results k ev (e' ∷ ds) (r ∷ rs) e h a q i =
      ground (arith, first_content-results k ev ds rs e h a.1, a.0, same_key_iff (key_of e') k)

module _ (by : Option String) (es : List NormalizedEventCreate) (s : Session) (d : IsDeduped es)
    (c : IsConsistent s.db) (f : HasFreshDraws s) where
  versions-write_rows : (write_rows by es s).db.versions ≡ s.db.versions
  unfolding write_rows
  versions-write_rows =
      versions-build_rows (s.world.clock 0) by (reload es s.db.events) es (start s) λ k old h.
        let stored : event_of k s.db.events ≡ some old =
          event_of-unreload k es s.db.events old c.unique (
            sym (
              map_get-eq-event_of k (reload es s.db.events)
                (reload-IsUnique es s.db.events c.unique))
            ∙ h) in
        ap is_some (c.recorded k old stored).current

  write_rows-HasDistinctIds : HasDistinctIds (write_rows by es s).db.events
  write_rows-HasDistinctIds = subst HasDistinctIds (sym (events-write_rows by es s)) (
      insert_rows-HasDistinctIds (rows_for by es s).0 s.db.events
        (build_rows-HasDistinctIds (s.world.clock 0) by (reload es s.db.events) es (start s)
          f.distinct)
        (build_rows-have (s.world.clock 0) by (reload es s.db.events) (λ i. IsFreshId i s.db.events)
          es (start s) f.unused)
        c.ids)

  abbrev Unrecorded : Uuid → Type 0
  Unrecorded i = (n : ℕ) → content_of i n s.db.versions ≡ none

  -- The id of a new event has no versions yet.
  new-Unrecorded :
      (k : Key) (ev : NormalizedEvent)
      → event_of k s.db.events ≡ none
      → event_of k (write_rows by es s).db.events ≡ some ev
      → Unrecorded ev.id
  new-Unrecorded k ev h e =
      event_of-All (λ r. Unrecorded r.id) k (rows_for by es s).0 {a = ev}
        (build_rows-have (s.world.clock 0) by (reload es s.db.events) Unrecorded es (start s)
          f.unrecorded)
        (ground (arith, h, write_rows-event_of by es s d c.unique k))

  -- The last snapshots are taken of the results, after the rows were written.
  abbrev results : List NormalizedEvent
  results = results_of es (reload es (write_rows by es s).db.events)

  Stored-results : Stored (write_rows by es s).db.events es results
  unfolding upsert_deduped
  Stored-results = upsert_deduped_results by es s d c.unique

  module _ (k : Key) (ev : NormalizedEvent)
      (stored : event_of k (write_rows by es s).db.events ≡ some ev) where
    agree : Agree ev results
    agree =
        Agree-results (write_rows by es s).db.events k ev es results write_rows-HasDistinctIds
          stored Stored-results

    added :
        (e : NormalizedEventCreate)
        → input_of k es ≡ some e
        → first_content ev.id ev.version results ≡ some ev.content
    added e h =
        first_content-results (write_rows by es s).db.events k ev es results e stored agree
          Stored-results h

    abbrev Recorded : Type 0
    Recorded = IsRecorded ev (snapshot_all by results (write_rows by es s)).db.versions

    -- `IsRecorded-after` over the version table as it was.
    recorded_from :
        (content_of ev.id ev.version s.db.versions ≡ some ev.content)
          ⊎ ((content_of ev.id ev.version s.db.versions ≡ none)
              × (first_content ev.id ev.version results ≡ some ev.content))
        → ((n : ℕ) → 1 ≤ n → n < ev.version → is_some (content_of ev.id n s.db.versions) ≡ true)
        → ((n : ℕ) → ev.version < n → content_of ev.id n s.db.versions ≡ none)
        → Recorded
    recorded_from now below beyond =
        IsRecorded-after by results (write_rows by es s) ev agree (rw versions-write_rows now)
          (λ n l h. rw versions-write_rows (below n l h))
          (λ n h. rw versions-write_rows (beyond n h))

    recorded_other : input_of k es ≡ none → Recorded
    recorded_other h =
        let old : IsRecorded ev s.db.versions =
          c.recorded k ev (sym (write_rows-event_of_other by es s d c.unique k h) ∙ stored) in
        recorded_from (inl old.current) (λ n l b. old.complete n l (omega arith)) old.bounded

    recorded_new :
        (e : NormalizedEventCreate)
        → input_of k es ≡ some e
        → event_of k s.db.events ≡ none
        → Recorded
    recorded_new e h missing =
        let none_yet = new-Unrecorded k ev missing stored in
        let found = write_rows-event_of_input by es s d c.unique k e h in
        let first_version : ev.version ≡ 1 = ground (arith, found.1, missing, stored) in
        recorded_from (inr (none_yet ev.version, added e h)) (λ n l b. absurd (omega arith))
          (λ n b. none_yet n)

    recorded_old :
        (e : NormalizedEventCreate) (old : NormalizedEvent)
        → input_of k es ≡ some e
        → event_of k s.db.events ≡ some old
        → Recorded
    recorded_old e old h had =
        let r : IsRecorded old s.db.versions = c.recorded k old had in
        let found = write_rows-event_of_input by es s d c.unique k e h in
        elim (Bool-cases (str_eq old.content e.content)) [
          | inl same ↦
              let i : ev.id ≡ old.id = ground (arith, found.1, had, stored) in
              let v : ev.version ≡ old.version = ground (arith, found.1, had, stored) in
              let t : ev.content ≡ old.content =
                ground (arith, found.1, had, stored, eq_iff old.content e.content) in
              recorded_from (inl (cc (i, v, t, r.current)))
                (λ n l b. cc (i, r.complete n l (omega arith)))
                (λ n b. cc (i, r.bounded n (omega arith)))
          | inr changed ↦
              let i : ev.id ≡ old.id = ground (arith, found.1, had, stored) in
              let v : ev.version ≡ old.version + 1 = ground (arith, found.1, had, stored) in
              recorded_from
                (inr (
                  cc (
                    i,
                    ap (λ m. content_of ev.id m s.db.versions) v,
                    r.bounded (old.version + 1) (omega arith),
                  ),
                  added e h,
                ))
                (λ n l b. cc (i, r.complete n l (omega arith)))
                (λ n b. cc (i, r.bounded n (omega arith)))
        ]

    recorded : Recorded
    recorded = elim (Option-cases (input_of k es)) [
      | inl absent ↦ recorded_other absent
      | inr (e, h) ↦ elim (Option-cases (event_of k s.db.events)) [
        | inl missing ↦ recorded_new e h missing
        | inr (old, had) ↦ recorded_old e old h had
      ]
    ]

  upsert_deduped-IsConsistent : IsConsistent (upsert_deduped by es s).1.db
  unfolding upsert_deduped
  upsert_deduped-IsConsistent = record {
    unique =
        subst IsUnique (sym (events-upsert_deduped by es s))
          (write_rows-IsUnique by es s d c.unique);
    ids = subst HasDistinctIds (sym (events-upsert_deduped by es s)) write_rows-HasDistinctIds;
    recorded = λ k ev h.
        subst (IsRecorded ev)
          (sym (versions-enqueue_all results (snapshot_all by results (write_rows by es s))))
          (recorded k ev (ap (event_of k) (sym (events-upsert_deduped by es s)) ∙ h));
  }

-- From a consistent store, where each event has a version row for every version from 1 to its own,
-- the last with its content and none beyond, and with new UUIDs to draw, a bulk upsert of any batch
-- ends in a consistent store.
pub upsert_events_bulk-IsConsistent :
    (es : List NormalizedEventCreate) (by : Option String) (s : Session)
    → IsConsistent s.db
    → HasFreshDraws s
    → IsConsistent (upsert_events_bulk es by s).1.db
unfolding upsert_events_bulk
upsert_events_bulk-IsConsistent [] by s c f = c
upsert_events_bulk-IsConsistent (e ∷ es) by s c f =
    upsert_deduped-IsConsistent by (dedup (e ∷ es)) s (dedup-IsDeduped (e ∷ es)) c f
