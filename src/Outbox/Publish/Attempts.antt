-- ===== src/Outbox/Publish/Attempts.antt =====
-- Repeated runs of the publisher settle every row.
use omnisync.Base.{
  ℕ, zero, suc, ◌+◌, ◌≤◌, ◌≡◌, ◌≢◌, refl, sym, ap, subst, ◌∙◌, inl, inr, ◌⊎◌, Bool, true, false,
  not, ◌&&◌, none, some, List, [], ◌∷◌, arith, leb, ltb, Bool-cases, length, select, take_all,
  length-select-le, Uuid, Timestamp,
}
use omnisync.Base.Keyset.{sort}
use omnisync.Base.Keyset.Sorted.{length-sort}
use omnisync.Base.Rows.{
  find, put, HasUniqueIds, put-HasUniqueIds, length-put, find-select, find-sort,
  select-HasUniqueIds,
}
use omnisync.Config.{Settings}
use omnisync.Session.{Session}
use omnisync.Outbox.Model.{OutboxEvent, Status, pending, published, dead}
use omnisync.Outbox.Publish.{
  Indexer, is_pending, fetch_pending, deliver, deliver_all, publish_outbox, limit_or,
}
use omnisync.Outbox.Publish.Effect.{outbox_id, indexed, delivered, publish_outbox_row}

abbrev nobody : Uuid → Bool
nobody _ = false

-- The publisher runs again and again; the index may answer differently each time.
pub runs : Settings → ℕ → (ℕ → Indexer) → Session → Session
runs cfg zero index_event s = s
runs cfg (suc n) index_event s =
    runs cfg n (λ k. index_event (suc k)) (publish_outbox cfg nobody (index_event 0) s).1

module _ (cfg : Settings) (index_event : Indexer) where
  -- A table of a size with distinct ids.
  abbrev IsTable : ℕ → List OutboxEvent → Type 0
  IsTable n rows = HasUniqueIds outbox_id rows × (length rows ≡ n)

  written_by_deliver :
      (o : OutboxEvent) (s : Session)
      → (row : OutboxEvent) × ((deliver cfg index_event o s).db.outbox
          ≡ put outbox_id row s.db.outbox)
  unfolding deliver
  written_by_deliver o s = elim (Bool-cases (indexed index_event o)) [
    | inl e ↦ (delivered cfg (s.world.clock 0) true o, ground arith)
    | inr e ↦ (delivered cfg (s.world.clock 0) false o, ground arith)
  ]

  deliver-IsTable :
      (n : ℕ) (o : OutboxEvent) (s : Session)
      → IsTable n s.db.outbox
      → IsTable n (deliver cfg index_event o s).db.outbox
  deliver-IsTable n o s h =
      let w = written_by_deliver o s in
      subst (IsTable n) (sym w.1)
        (put-HasUniqueIds outbox_id w.0 s.db.outbox h.0, length-put outbox_id w.0 s.db.outbox ∙ h.1)

  deliver_all-IsTable :
      (n : ℕ) (batch : List OutboxEvent) (s : Session)
      → IsTable n s.db.outbox
      → IsTable n (deliver_all cfg index_event batch s).db.outbox
  unfolding deliver_all
  deliver_all-IsTable n [] s h = h
  deliver_all-IsTable n (o ∷ batch) s h =
      deliver_all-IsTable n batch (deliver cfg index_event o s) (deliver-IsTable n o s h)

-- With room in the batch for the whole table, a pending row is fetched.
fetched_if_pending :
    (cfg : Settings) (rows : List OutboxEvent) (i : Uuid) {o : OutboxEvent}
    → HasUniqueIds outbox_id rows
    → length rows ≤ cfg.outbox_batch_size
    → find outbox_id i rows ≡ some o
    → o.status ≡ pending
    → find outbox_id i (fetch_pending cfg none nobody rows) ≡ some o
unfolding fetch_pending
fetched_if_pending cfg rows i {o} u room h p =
    let test = λ (x : OutboxEvent). is_pending x.status && not (nobody x.id) in
    let kept = select test rows in
    let fits : length (sort ltb (λ (x : OutboxEvent). x.created_at) kept) ≤ cfg.outbox_batch_size =
      omega (
        arith,
        length-sort ltb (λ (x : OutboxEvent). x.created_at) kept,
        length-select-le test rows,
      ) in
    ap (find outbox_id i) (take_all (limit_or none cfg.outbox_batch_size) _ fits)
    ∙ find-sort outbox_id ltb (λ (x : OutboxEvent). x.created_at) i kept
        (select-HasUniqueIds outbox_id test rows u)
    ∙ find-select outbox_id i test rows u h (ap (λ st. is_pending st && true) p)

Status-cases : (st : Status) → (st ≡ pending) ⊎ (st ≢ pending)
Status-cases pending = inl refl
Status-cases published = inr (λ e. cc)
Status-cases dead = inr (λ e. cc)

-- A row that `n` more runs are sure to settle.
abbrev Settles : Settings → ℕ → OutboxEvent → Type 0
Settles cfg n o = (o.status ≢ pending) ⊎ ((1 ≤ n) × (cfg.outbox_max_attempts ≤ o.attempts + n))

delivered-Settles :
    (cfg : Settings) (n : ℕ) (now : Timestamp) (took : Bool) (o : OutboxEvent)
    → o.status ≡ pending
    → cfg.outbox_max_attempts ≤ o.attempts + suc n
    → Settles cfg n (delivered cfg now took o)
delivered-Settles cfg n now true o p h = inl (λ e. cc)
delivered-Settles cfg n now false o p h =
    elim (Bool-cases (leb cfg.outbox_max_attempts (o.attempts + 1))) [
      | inl last ↦ inl (λ e. cc)
      | inr more ↦ inr (ground arith, omega arith)
    ]

module _ (cfg : Settings) (i : Uuid) where
  run-Settles :
      (n : ℕ) (index_event : Indexer) (s : Session) {o : OutboxEvent}
      → HasUniqueIds outbox_id s.db.outbox
      → length s.db.outbox ≤ cfg.outbox_batch_size
      → find outbox_id i s.db.outbox ≡ some o
      → Settles cfg (suc n) o
      → (o' : OutboxEvent) × (find outbox_id i (publish_outbox cfg nobody index_event s).1.db.outbox
          ≡ some o')
        × Settles cfg n o'
  unfolding publish_outbox
  run-Settles n index_event s {o} u room h t =
      elim (publish_outbox_row cfg nobody index_event s i {o = o} u h) [
        | inl left ↦ elim t [
          | inl done ↦ (o, left.1, inl done)
          | inr more ↦ elim (Status-cases o.status) [
            | inl p ↦ absurd (cc (fetched_if_pending cfg s.db.outbox i {o = o} u room h p, left.0))
            | inr done ↦ (o, left.1, inl done)
          ]
        ]
        | inr got ↦ elim t [
          | inl done ↦ absurd (done got.1)
          | inr more ↦ (
            delivered cfg got.3 (indexed index_event o) o,
            got.4,
            delivered-Settles cfg n got.3 (indexed index_event o) o got.1 more.1,
          )
        ]
      ]

  runs_settle :
      (n : ℕ) (index_event : ℕ → Indexer) (s : Session) {o : OutboxEvent}
      → HasUniqueIds outbox_id s.db.outbox
      → length s.db.outbox ≤ cfg.outbox_batch_size
      → find outbox_id i s.db.outbox ≡ some o
      → Settles cfg n o
      → (o' : OutboxEvent) × (find outbox_id i (runs cfg n index_event s).db.outbox ≡ some o')
        × (o'.status ≢ pending)
  unfolding runs publish_outbox
  runs_settle zero index_event s {o} u room h t = elim t [
    | inl done ↦ (o, h, done)
    | inr more ↦ absurd (omega arith)
  ]
  runs_settle (suc n) index_event s {o} u room h t =
      let once = run-Settles n (index_event 0) s {o = o} u room h t in
      let kept =
        deliver_all-IsTable cfg (index_event 0) (length s.db.outbox)
          (fetch_pending cfg none nobody s.db.outbox) s (u, refl) in
      runs_settle n (λ k. index_event (suc k)) (publish_outbox cfg nobody (index_event 0) s).1
        {o = once.0} kept.0 (rw kept.1 room) once.1 once.2

-- Whatever the index answers: with a positive maximum of attempts, a batch that has room for the
-- table and no other worker, after as many runs as that maximum every row is published or dead.
pub publish_settles :
    (cfg : Settings) (index_event : ℕ → Indexer) (s : Session) (i : Uuid) {o : OutboxEvent}
    → HasUniqueIds outbox_id s.db.outbox
    → length s.db.outbox ≤ cfg.outbox_batch_size
    → 1 ≤ cfg.outbox_max_attempts
    → find outbox_id i s.db.outbox ≡ some o
    → (o' : OutboxEvent) × (find outbox_id i
          (runs cfg cfg.outbox_max_attempts index_event s).db.outbox
        ≡ some o')
      × (o'.status ≢ pending)
publish_settles cfg index_event s i {o} u room pos h =
    runs_settle cfg i cfg.outbox_max_attempts index_event s {o = o} u room h
      (inr (pos, omega arith))
