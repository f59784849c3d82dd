-- ===== src/Integrations/Success.antt =====
-- A sync that ends normally.
use omnisync.Base.{
  ℕ, ◌≡◌, refl, sym, ap, subst, ◌∙◌, inl, inr, String, Option, none, some, List, [], arith,
  Option-cases, length, Uuid, Timestamp,
}
use omnisync.Base.Outcome.{ok, Outcome-cases}
use omnisync.Base.Rows.{HasUniqueIds}
use omnisync.Config.{Settings}
use omnisync.Session.{Session, Store}
use omnisync.Events.Model.{NormalizedEvent, NormalizedEventCreate}
use omnisync.Events.Upsert.{Key, key_of, dedup, upsert_events_bulk}
use omnisync.Events.Upsert.Keys.{input_of}
use omnisync.Events.Upsert.Rows.{event_of, IsUnique}
use omnisync.Events.Upsert.Effect.{upserted, upsert_events_bulk-event_of_input}
use omnisync.Events.Upsert.Results.{upsert_events_bulk-results}
use omnisync.Events.Upsert.Frame.{sync_states-upsert_events_bulk}
use omnisync.RawPayloads.{Backend}
use omnisync.SyncLogs.{
  create_sync_log_own, create_sync_log, update_sync_log_status_own, update_sync_log_status,
}
use omnisync.SyncState.{get_cursor}
use omnisync.SyncState.Cursors.{state_id}
use omnisync.Integrations.{
  TimeText, Registry, get_connector, since_of, sync_items, finish_sync, run_connector_sync, collect,
  advance, store_events,
}
use omnisync.Integrations.Frame.{OnlyPayloads, collect_frame}
use omnisync.Integrations.Collected.{
  AreNormalized, since_of-IsSince, collect-AreNormalized, AreFetched, from_started,
}
use omnisync.Integrations.Latest.{
  newest, advanced, upsert_if_any_eq, length_of_map, advance-events, advance-get_cursor,
  collect-newest,
}

module _ (cfg : Settings) (backend : Backend) (texts : TimeText) where
  -- What the commit of a sync makes of the store it started from, for the events it collected.
  pub record IsSynced (source : String) (events : List NormalizedEventCreate) (n : ℕ)
      (before after : Store) : Type 0 where
    pub counted : n ≡ length (dedup events)
    pub now : Timestamp
    pub stored :
        (k : Key) (e : NormalizedEventCreate)
        → input_of k events ≡ some e
        → (i : Uuid) × (event_of k after.events
            ≡ some (upserted now i (event_of k before.events) e))
    pub cursor :
        get_cursor source "default" after
        ≡ advanced texts (newest events) (get_cursor source "default" before)

  store_events-IsSynced :
      (source correlation_id : String) (events : List NormalizedEventCreate) (s : Session)
      → IsUnique s.db.events
      → HasUniqueIds state_id s.db.sync_states
      → let (n, s') =
          store_events cfg backend texts source correlation_id (events, newest events) s in
        IsSynced source events n s.db s'.committed
  unfolding store_events get_cursor
  store_events-IsSynced source correlation_id events s u ids =
      let by = some correlation_id in
      let same = upsert_if_any_eq events correlation_id s in
      let done = upsert_events_bulk events by s in
      let states = sync_states-upsert_events_bulk events by s in
      subst
        (λ (r : List NormalizedEvent × Session).
          IsSynced source events (length r.0) s.db
            (advance cfg backend texts source (newest events) r.1).db)
        (sym same)
        (record {
          counted =
              sym (length_of_map some done.0)
              ∙ ap length (upsert_events_bulk-results events by s u).0
              ∙ length_of_map (λ e. event_of (key_of e) done.1.db.events) (dedup events);
          now = s.world.clock 0;
          stored = λ k e h.
              let found = upsert_events_bulk-event_of_input events by s u k e h in
              (
                found.0,
                ap (event_of k) (advance-events cfg backend texts source (newest events) done.1)
                    ∙ found.1,
              );
          cursor =
              advance-get_cursor cfg backend texts source (newest events) done.1
                (subst (HasUniqueIds state_id) (sym states) ids)
              ∙ ap
                  (λ rows.
                    advanced texts (newest events)
                      (get_cursor source "default" (record done.1.db { sync_states = rows })))
                  states;
        })

  -- Only the events and the cursors of a store matter.
  IsSynced-congr :
      (source : String) (events : List NormalizedEventCreate) (n : ℕ)
      (before before' after after' : Store)
      → before.events ≡ before'.events
      → before.sync_states ≡ before'.sync_states
      → after.events ≡ after'.events
      → after.sync_states ≡ after'.sync_states
      → IsSynced source events n before after
      → IsSynced source events n before' after'
  unfolding get_cursor
  IsSynced-congr source events n before before' after after' h k h' k' t = record {
    counted = t.counted;
    now = t.now;
    stored = λ key e q.
        let found = t.stored key e q in
        (
          found.0,
          subst
              (λ (r : List NormalizedEvent × List NormalizedEvent).
                event_of key r.1 ≡ some (upserted t.now found.0 (event_of key r.0) e))
              (pair_eq h h') found.1,
        );
    cursor = rw (← k, ← k', get_cursor) t.cursor;
  }
    where
      pair_eq :
          {a b c d : List NormalizedEvent}
          → a ≡ b
          → c ≡ d
          → ◌≡◌ {A = List NormalizedEvent × List NormalizedEvent} (a, c) (b, d)
      pair_eq p q = cc

  after_loop :
      (source correlation_id : String) (found : List NormalizedEventCreate × Option Timestamp)
      (s' s : Session) {n : ℕ}
      → newest found.0 ≡ found.1
      → OnlyPayloads s' s
      → IsUnique s.db.events
      → HasUniqueIds state_id s.db.sync_states
      → (store_events cfg backend texts source correlation_id found s').0 ≡ n
      → IsSynced source found.0 n s.db
          (store_events cfg backend texts source correlation_id found s').1.committed
  after_loop source correlation_id found s' s {n} h o u ids q =
      let events : s'.db.events ≡ s.db.events = ap (λ (d : Store). d.events) o.1 in
      let states : s'.db.sync_states ≡ s.db.sync_states = ap (λ (d : Store). d.sync_states) o.1 in
      let run = λ (t : Option Timestamp).
        store_events cfg backend texts source correlation_id (found.0, t) s' in
      let synced : IsSynced source found.0 (run (newest found.0)).0 s'.db
          (run (newest found.0)).1.committed =
        store_events-IsSynced source correlation_id found.0 s' (subst IsUnique (sym events) u)
          (subst (HasUniqueIds state_id) (sym states) ids) in
      let moved =
        subst (λ t. IsSynced source found.0 (run t).0 s'.db (run t).1.committed) h synced in
      let counted =
        subst (λ m. IsSynced source found.0 m s'.db (run found.1).1.committed) q moved in
      IsSynced-congr source found.0 n s'.db s.db (run found.1).1.committed (run found.1).1.committed
        events states refl refl counted

  sync_items-IsSynced :
      (registry : Registry) (source operation correlation_id : String) (s : Session) {n : ℕ}
      → IsUnique s.db.events
      → HasUniqueIds state_id s.db.sync_states
      → (sync_items cfg backend texts registry source operation correlation_id s).0 ≡ ok n
      → let s' = (sync_items cfg backend texts registry source operation correlation_id s).1 in
        (events : List NormalizedEventCreate) × AreFetched cfg backend texts registry source s.db
          events
        × IsSynced source events n s.db s'.committed
        × (s'.db ≡ s'.committed)
  unfolding sync_items store_events
  sync_items-IsSynced registry source operation correlation_id s {n} u ids =
      elim (Outcome-cases (get_connector source registry)) [
        | inr (x, unknown) ↦ rw (unknown, sync_items) (λ h. absurd (cc))
        | inl (connector, known) ↦
            elim (Option-cases (since_of cfg backend texts (get_cursor source "default" s.db))) [
              | inl bad ↦ rw (known, bad, sync_items) (λ h. absurd (cc))
              | inr (since, good) ↦ elim (Outcome-cases (connector.fetch since)) [
                | inr (x, failed) ↦ rw (known, good, failed, sync_items) (λ h. absurd (cc))
                | inl (raws, fetched) ↦
                    let loop =
                      collect cfg backend texts connector operation correlation_id raws [] none s in
                    elim (Outcome-cases loop.0) [
                      | inr (x, failed) ↦
                          rw (known, good, fetched, failed, sync_items) (λ h. absurd (cc))
                      | inl (found, done) ↦
                          rw (known, good, fetched, done, sync_items)
                            (λ h.
                              let frame =
                                collect_frame cfg backend texts connector operation correlation_id
                                  raws [] none s in
                              let latest =
                                collect-newest cfg backend texts connector operation correlation_id
                                  raws [] none s {found = found} refl done in
                              let added =
                                collect-AreNormalized cfg backend texts connector operation
                                  correlation_id raws [] none s {found = found} done in
                              (
                                found.0,
                                record {
                                  connector = connector;
                                  registered = known;
                                  since = since;
                                  since_cursor =
                                      since_of-IsSince cfg backend texts _ {since = since} good;
                                  items = raws;
                                  fetched = fetched;
                                  normalized =
                                      subst (AreNormalized connector raws) (sym added.1) added.2;
                                },
                                after_loop source correlation_id found loop.1 s latest frame u ids
                                    (ground (arith, h)),
                                refl,
                              ))
                    ]
              ]
            ]
      ]

  -- A run that ends normally with a count `n`, in a fresh session over tables that meet their
  -- constraints: the connector of the source was asked for the items since the time of the cursor, or
  -- for all without a cursor, and each item was normalized. The run committed the upsert of exactly
  -- the events of those items, `n` distinct keys, and in the same commit the cursor of the source
  -- moved to the newest timestamp of those events, or stayed if there are none.
  pub run_connector_sync_succeeded :
      (registry : Registry) (source operation correlation_id : String) (s : Session) (n : ℕ)
      → s.db ≡ s.committed
      → IsUnique s.db.events
      → HasUniqueIds state_id s.db.sync_states
      → (run_connector_sync cfg backend texts registry source operation correlation_id s).0 ≡ ok n
      → (events : List NormalizedEventCreate) × AreFetched cfg backend texts registry source
          s.committed events
        × IsSynced source events n s.committed
            (run_connector_sync cfg backend texts registry source operation correlation_id
              s).1.committed
  unfolding run_connector_sync create_sync_log_own create_sync_log finish_sync
      update_sync_log_status_own update_sync_log_status
  run_connector_sync_succeeded registry source operation correlation_id s n fresh u ids h =
      let started = create_sync_log_own correlation_id operation "started" s in
      let attempt =
        sync_items cfg backend texts registry source operation correlation_id started.1 in
      elim (Outcome-cases attempt.0) [
        | inr (x, failed) ↦ absurd (cc (rw (failed, finish_sync) at h))
        | inl (m, done) ↦
            let synced =
              sync_items-IsSynced registry source operation correlation_id started.1 {n = m} u ids
                done in
            let same : m ≡ n = cc (rw (done, finish_sync) at h) in
            rw (done, finish_sync)
              (
                synced.0,
                subst (λ (d : Store). AreFetched cfg backend texts registry source d synced.0) fresh
                    (from_started cfg backend texts registry source operation correlation_id s
                      synced.0 synced.1),
                IsSynced-congr source synced.0 n started.1.db s.committed attempt.1.committed _
                    (ap (λ (d : Store). d.events) fresh) (ap (λ (d : Store). d.sync_states) fresh)
                    (ap (λ (d : Store). d.events) (sym synced.3))
                    (ap (λ (d : Store). d.sync_states) (sym synced.3))
                    (subst (λ c. IsSynced source synced.0 c started.1.db attempt.1.committed) same
                      synced.2),
              )
      ]
