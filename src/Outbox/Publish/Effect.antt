-- ===== src/Outbox/Publish/Effect.antt =====
-- One run of the publisher, row by row.
use omnisync.Base.{
  ◌+◌, ◌≡◌, refl, subst, ◌∙◌, inl, inr, ◌⊎◌, Bool, true, false, not, ◌&&◌, none, some, List, [],
  ◌∷◌, arith, leb, ltb, ◌==◌, if◌then◌else◌, is_some, Option-cases, Bool-cases, cut, select, All,
  All-map, All-zip, All-select, All-select_passes, All-take, Uuid, Timestamp,
}
use omnisync.Base.Keyset.{sort}
use omnisync.Base.Keyset.Sorted.{All-sort}
use omnisync.Base.Rows.{
  find, HasUniqueIds, find-put, find_absent, find-All, find_self, select-HasUniqueIds,
  take-HasUniqueIds, sort-HasUniqueIds,
}
use omnisync.Config.{Settings}
use omnisync.Session.{Session}
use omnisync.Outbox.Model.{OutboxEvent, Status, pending, published, dead}
use omnisync.Outbox.Publish.{
  Indexer, publication_error, is_pending, fetch_pending, deliver, deliver_all, publish_outbox,
  limit_or,
}

abbrev pub outbox_id : OutboxEvent → Uuid
outbox_id o = o.id

-- What the index says of a row's payload.
abbrev pub indexed : Indexer → OutboxEvent → Bool
indexed index_event o =
    index_event o.payload.event_id o.payload.content o.payload.source o.payload.event_type

-- What a delivery makes of a row: published, or one more failed attempt, the last one fatal.
abbrev pub delivered : Settings → Timestamp → Bool → OutboxEvent → OutboxEvent
delivered cfg now true o = record o {
  status = published;
  published_at = some now;
  attempts = o.attempts + 1;
}
delivered cfg now false o = record o {
  attempts = o.attempts + 1;
  last_error = some (cut 1000 publication_error);
  status = if leb cfg.outbox_max_attempts (o.attempts + 1) then dead else o.status;
}

module _ (cfg : Settings) (index_event : Indexer) where
  -- The first row of a batch has been delivered at some reading of the clock, the others are as
  -- they were.
  find-deliver :
      (i : Uuid) (o : OutboxEvent) (s : Session)
      → (now : Timestamp) × (find outbox_id i (deliver cfg index_event o s).db.outbox ≡ (
          if o.id == i
          then (if is_some (find outbox_id i s.db.outbox)
              then some (delivered cfg now (indexed index_event o) o)
              else none)
          else find outbox_id i s.db.outbox))
  unfolding deliver
  find-deliver i o s = (
    s.world.clock 0,
    elim (Bool-cases (indexed index_event o)) [
      | inl yes_indexed ↦
          ground (arith, find-put outbox_id i (delivered cfg (s.world.clock 0) true o) s.db.outbox)
      | inr not_indexed ↦
          ground (arith, find-put outbox_id i (delivered cfg (s.world.clock 0) false o) s.db.outbox)
    ],
  )

  find-deliver_all_other :
      (i : Uuid) (batch : List OutboxEvent) (s : Session)
      → find outbox_id i batch ≡ none
      → find outbox_id i (deliver_all cfg index_event batch s).db.outbox
        ≡ find outbox_id i s.db.outbox
  unfolding deliver_all
  find-deliver_all_other i [] s h = refl
  find-deliver_all_other i (o ∷ batch) s h =
      ground (
        arith,
        find-deliver_all_other i batch (deliver cfg index_event o s),
        (find-deliver i o s).1,
      )

  find-deliver_all :
      (i : Uuid) (batch : List OutboxEvent) (s : Session) {o : OutboxEvent}
      → HasUniqueIds outbox_id batch
      → find outbox_id i batch ≡ some o
      → is_some (find outbox_id i s.db.outbox) ≡ true
      → (now : Timestamp) × (find outbox_id i (deliver_all cfg index_event batch s).db.outbox
          ≡ some (delivered cfg now (indexed index_event o) o))
  unfolding deliver_all
  find-deliver_all i [] s u h p = absurd (cc)
  find-deliver_all i (b ∷ batch) s {o} u h p =
      let step = find-deliver i b s in
      let s' = deliver cfg index_event b s in
      elim (Bool-cases (b.id == i)) [
        | inl here ↦ (
          step.0,
          ground (
            arith,
            step.1,
            find-deliver_all_other i batch s',
            find_absent outbox_id b.id batch u.0,
          ),
        )
        | inr there ↦
            find-deliver_all i batch s' {o = o} u.1 (ground arith) (ground (arith, step.1))
      ]

abbrev batch_of : Settings → (Uuid → Bool) → Session → List OutboxEvent
batch_of cfg locked s = fetch_pending cfg none locked s.db.outbox

-- A fetched row is a pending row of the table that nobody has locked.
abbrev IsFetched : (Uuid → Bool) → Session → OutboxEvent → Type 0
IsFetched locked s o =
    (find outbox_id o.id s.db.outbox ≡ some o) × (o.status ≡ pending) × (locked o.id ≡ false)

pending_of_test :
    (st : Status) (b : Bool) → (is_pending st && not b) ≡ true → (st ≡ pending) × (b ≡ false)
unfolding is_pending
pending_of_test st b h = ground arith

batch-IsFetched :
    (cfg : Settings) (locked : Uuid → Bool) (s : Session)
    → HasUniqueIds outbox_id s.db.outbox
    → All (IsFetched locked s) (batch_of cfg locked s)
unfolding fetch_pending
batch-IsFetched cfg locked s u =
    let test = λ (o : OutboxEvent). is_pending o.status && not (locked o.id) in
    let rows = select test s.db.outbox in
    All-take (IsFetched locked s) (limit_or none cfg.outbox_batch_size)
      (sort ltb (λ o. o.created_at) rows)
      (All-sort ltb (λ o. o.created_at) (IsFetched locked s) rows
        (All-map (λ o h. let p = pending_of_test o.status (locked o.id) h.1 in (h.0, p.0, p.1)) rows
          (All-zip (λ o. find outbox_id o.id s.db.outbox ≡ some o) (λ o. test o ≡ true) rows
            (All-select (λ o. find outbox_id o.id s.db.outbox ≡ some o) test s.db.outbox
              (find_self outbox_id s.db.outbox u))
            (All-select_passes test s.db.outbox))))

batch-HasUniqueIds :
    (cfg : Settings) (locked : Uuid → Bool) (s : Session)
    → HasUniqueIds outbox_id s.db.outbox
    → HasUniqueIds outbox_id (batch_of cfg locked s)
unfolding fetch_pending
batch-HasUniqueIds cfg locked s u = take-HasUniqueIds outbox_id _ _ (
    sort-HasUniqueIds outbox_id ltb (λ o. o.created_at) _
      (select-HasUniqueIds outbox_id (λ o. is_pending o.status && not (locked o.id)) s.db.outbox u))

-- One run of the publisher, over a table with distinct ids, commits for each stored row: the row
-- as it was, if the run did not fetch it; else the row was pending and unlocked, and it is
-- published if the index took it, or it has one more failed attempt, which makes it dead when
-- the attempts reach the maximum and leaves it pending before. So published and dead rows never
-- change.
pub publish_outbox_row :
    (cfg : Settings) (locked : Uuid → Bool) (index_event : Indexer) (s : Session) (i : Uuid)
    {o : OutboxEvent}
    → HasUniqueIds outbox_id s.db.outbox
    → find outbox_id i s.db.outbox ≡ some o
    → let after = (publish_outbox cfg locked index_event s).1.committed.outbox in
      ((find outbox_id i (fetch_pending cfg none locked s.db.outbox) ≡ none)
        × (find outbox_id i after ≡ some o))
      ⊎ ((find outbox_id i (fetch_pending cfg none locked s.db.outbox) ≡ some o)
          × (o.status ≡ pending)
          × (locked i ≡ false)
          × (now : Timestamp) × (find outbox_id i after
              ≡ some (delivered cfg now (indexed index_event o) o)))
unfolding publish_outbox
publish_outbox_row cfg locked index_event s i {o} u h =
    let batch = batch_of cfg locked s in
    elim (Option-cases (find outbox_id i batch)) [
      | inl left ↦ inl (left, find-deliver_all_other cfg index_event i batch s left ∙ h)
      | inr (b, fetched) ↦
          let facts =
            find-All outbox_id (IsFetched locked s) i batch {a = b} (batch-IsFetched cfg locked s u)
              fetched in
          let same : b ≡ o = ground (arith, facts.0.0, facts.1, h) in
          let done =
            find-deliver_all cfg index_event i batch s {o = b} (batch-HasUniqueIds cfg locked s u)
              fetched (rw h) in
          inr (
            subst
              (λ x.
                (find outbox_id i batch ≡ some x)
                × (x.status ≡ pending)
                × (locked i ≡ false)
                × (now : Timestamp) × (find outbox_id i
                      (deliver_all cfg index_event batch s).db.outbox
                    ≡ some (delivered cfg now (indexed index_event x) x)))
              same
              (fetched, facts.0.1, subst (λ j. locked j ≡ false) facts.1 facts.0.2, done.0, done.1))
    ]
