-- ===== src/Dlq/Retry/Scan.antt =====
-- One scan of the retrier, by the branches of the code.
use omnisync.Base.{
  ◌≡◌, ◌≢◌, refl, sym, ap, subst, ◌∙◌, inl, inr, ◌⊎◌, Bool, true, false, not, ◌&&◌, none, some,
  List, [], ◌∷◌, arith, Bool-cases, Option-cases, All, All-map, All-zip, All-select,
  All-select_passes, All-take, select, ◌==◌, if◌then◌else◌, Uuid, Timestamp, tick,
}
use omnisync.Base.Keyset.{sort}
use omnisync.Base.Keyset.Sorted.{All-sort}
use omnisync.Base.Rows.{
  find, HasUniqueIds, find-put, find_absent, find-All, find_self, select-HasUniqueIds,
  take-HasUniqueIds, sort-HasUniqueIds,
}
use omnisync.Config.{Settings}
use omnisync.Session.{Session}
use omnisync.Dlq.Model.{FailedEvent}
use omnisync.Dlq.Record.Collapse.{failed_id}
use omnisync.Dlq.Retry.{
  Broker, sooner, retry_limit, can_retry, fetch_due_retries, mark_retry_scheduled, retry_one,
  retry_all, due_batch, process_due_retries,
}

-- What a scan makes of an entry: scheduled again if the broker took it.
abbrev pub retried : Settings → Timestamp → Bool → FailedEvent → FailedEvent
retried cfg now true f = mark_retry_scheduled cfg now f
retried cfg now false f = f

module _ (cfg : Settings) (send_task : Broker) where
  find-retry_one :
      (i : Uuid) (f : FailedEvent) (s : Session)
      → find failed_id f.id s.db.failed_events ≡ some f
      → (now : Timestamp) × (find failed_id i (retry_one cfg send_task f s).db.failed_events ≡ (
          if f.id == i
          then some (retried cfg now (send_task f.id f.operation) f)
          else find failed_id i s.db.failed_events))
  unfolding retry_one mark_retry_scheduled
  find-retry_one i f s h =
      let now = s.world.clock 0 in
      (
        now,
        elim (Bool-cases (send_task f.id f.operation)) [
          | inl took ↦
              ground
                (arith, find-put failed_id i (mark_retry_scheduled cfg now f) s.db.failed_events)
          | inr refused ↦ ground arith
        ],
      )

  -- The rest of a batch is in the table after the first entry was handled.
  pub rest_stored :
      (f : FailedEvent) (batch : List FailedEvent) (s : Session)
      → find failed_id f.id s.db.failed_events ≡ some f
      → All (λ g. g.id ≢ f.id) batch
      → All (λ g. find failed_id g.id s.db.failed_events ≡ some g) batch
      → All (λ g. find failed_id g.id (retry_one cfg send_task f s).db.failed_events ≡ some g) batch
  rest_stored f batch s h n stored =
      All-map (λ g e. ground (arith, e.0, e.1, (find-retry_one g.id f s h).1)) batch
        (All-zip (λ g. g.id ≢ f.id) (λ g. find failed_id g.id s.db.failed_events ≡ some g) batch n
          stored)

  find-retry_all_other :
      (i : Uuid) (batch : List FailedEvent) (s : Session)
      → HasUniqueIds failed_id batch
      → All (λ f. find failed_id f.id s.db.failed_events ≡ some f) batch
      → find failed_id i batch ≡ none
      → find failed_id i (retry_all cfg send_task batch s).db.failed_events
        ≡ find failed_id i s.db.failed_events
  unfolding retry_all
  find-retry_all_other i [] s u stored h = refl
  find-retry_all_other i (f ∷ batch) s u stored h =
      let s' = retry_one cfg send_task f s in
      ground (
        arith,
        (find-retry_one i f s stored.0).1,
        find-retry_all_other i batch s' u.1 (rest_stored f batch s stored.0 u.0 stored.1),
      )

  find-retry_all :
      (i : Uuid) (batch : List FailedEvent) (s : Session) {f : FailedEvent}
      → HasUniqueIds failed_id batch
      → All (λ g. find failed_id g.id s.db.failed_events ≡ some g) batch
      → find failed_id i batch ≡ some f
      → (now : Timestamp) × (find failed_id i (retry_all cfg send_task batch s).db.failed_events
          ≡ some (retried cfg now (send_task f.id f.operation) f))
  unfolding retry_all
  find-retry_all i [] s u stored h = absurd (cc)
  find-retry_all i (g ∷ batch) s {f} u stored h =
      let step = find-retry_one i g s stored.0 in
      let s' = retry_one cfg send_task g s in
      let stored' = rest_stored g batch s stored.0 u.0 stored.1 in
      elim (Bool-cases (g.id == i)) [
        | inl here ↦
            let same : g ≡ f = ground arith in
            let other : find failed_id i batch ≡ none =
              subst (λ j. find failed_id j batch ≡ none) (ground arith)
                (find_absent failed_id g.id batch u.0) in
            (
              step.0,
              find-retry_all_other i batch s' u.1 stored' other ∙ step.1 ∙ rw (here, same) refl,
            )
        | inr there ↦ find-retry_all i batch s' {f = f} u.1 stored' (ground arith)
      ]

-- A fetched entry is one of the table that may be retried and that nobody has locked.
abbrev pub IsFetched :
    Settings → Timestamp → (Uuid → Bool) → List FailedEvent → FailedEvent → Type 0
IsFetched cfg now locked rows f =
    (find failed_id f.id rows ≡ some f) × (can_retry cfg now f ≡ true) × (locked f.id ≡ false)

both : (a b : Bool) → (a && not b) ≡ true → (a ≡ true) × (b ≡ false)
both a b h = ground arith

module _ (cfg : Settings) (now : Timestamp) (locked : Uuid → Bool) (rows : List FailedEvent)
    (u : HasUniqueIds failed_id rows) where
  abbrev wanted : FailedEvent → Bool
  wanted f = can_retry cfg now f && not (locked f.id)

  pub batch-IsFetched :
      All (IsFetched cfg now locked rows) (fetch_due_retries cfg now none locked rows)
  unfolding fetch_due_retries
  batch-IsFetched =
      All-take (IsFetched cfg now locked rows) (retry_limit cfg none)
        (sort sooner (λ f. f.next_retry_at) (select wanted rows))
        (All-sort sooner (λ f. f.next_retry_at) (IsFetched cfg now locked rows) (select wanted rows)
          (All-map (λ f h. let p = both (can_retry cfg now f) (locked f.id) h.1 in (h.0, p.0, p.1))
            (select wanted rows)
            (All-zip (λ f. find failed_id f.id rows ≡ some f) (λ f. wanted f ≡ true)
              (select wanted rows)
              (All-select (λ f. find failed_id f.id rows ≡ some f) wanted rows
                (find_self failed_id rows u))
              (All-select_passes wanted rows))))

  pub batch-HasUniqueIds : HasUniqueIds failed_id (fetch_due_retries cfg now none locked rows)
  unfolding fetch_due_retries
  batch-HasUniqueIds = take-HasUniqueIds failed_id _ _ (
      sort-HasUniqueIds failed_id sooner (λ f. f.next_retry_at) _
        (select-HasUniqueIds failed_id wanted rows u))

-- What the scan does to an entry, by the branches of the code.
pub scanned_row :
    (cfg : Settings) (locked : Uuid → Bool) (send_task : Broker) (s : Session) (i : Uuid)
    {f : FailedEvent}
    → HasUniqueIds failed_id s.db.failed_events
    → find failed_id i s.db.failed_events ≡ some f
    → let after = (process_due_retries cfg locked send_task s).1.db.failed_events in
      ((find failed_id i (due_batch cfg locked s) ≡ none) × (find failed_id i after ≡ some f))
      ⊎ ((find failed_id i (due_batch cfg locked s) ≡ some f)
          × (can_retry cfg (s.world.clock 0) f ≡ true)
          × (locked i ≡ false)
          × (now : Timestamp) × (find failed_id i after
              ≡ some (retried cfg now (send_task i f.operation) f)))
unfolding process_due_retries
scanned_row cfg locked send_task s i {f} u h =
    let rows = s.db.failed_events in
    let batch = due_batch cfg locked s in
    let s' = record s { world = tick s.world } in
    let facts = batch-IsFetched cfg (s.world.clock 0) locked rows u in
    let ids = batch-HasUniqueIds cfg (s.world.clock 0) locked rows u in
    let stored : All (λ g. find failed_id g.id rows ≡ some g) batch =
      All-map (λ g e. e.0) batch facts in
    elim (Option-cases (find failed_id i batch)) [
      | inl left ↦ inl (left, find-retry_all_other cfg send_task i batch s' ids stored left ∙ h)
      | inr (g, fetched) ↦
          let fact =
            find-All failed_id (IsFetched cfg (s.world.clock 0) locked rows) i batch {a = g} facts
              fetched in
          let same : g ≡ f = ground (arith, fact.0.0, fact.1, h) in
          let done = find-retry_all cfg send_task i batch s' {f = g} ids stored fetched in
          let here : f.id ≡ i = ap failed_id (sym same) ∙ fact.1 in
          inr (
            fetched ∙ ap some same,
            rw (← same) fact.0.1,
            subst (λ j. locked j ≡ false) fact.1 fact.0.2,
            done.0,
            done.1 ∙ rw (same, here) refl,
          )
    ]
