-- ===== src/Dlq/Retry/Queue.antt =====
-- A scan of the retrier and a manual replay keep the queue in order.
use omnisync.Base.{
  ◌≡◌, inl, inr, Bool, true, String, some, List, [], ◌∷◌, arith, Bool-cases, All, All-map, Uuid,
  Timestamp, tick,
}
use omnisync.Base.Rows.{find, HasUniqueIds}
use omnisync.Config.{Settings}
use omnisync.Session.{Session}
use omnisync.Dlq.Model.{FailedEvent}
use omnisync.Dlq.Record.{is_active, is_active_for}
use omnisync.Dlq.Record.Collapse.{failed_id, IsQueue, put-IsQueue}
use omnisync.Dlq.Retry.{
  Broker, can_retry, mark_retry_scheduled, retry_one, retry_all, due_batch, process_due_retries,
}
use omnisync.Dlq.Retry.Scan.{rest_stored, batch-IsFetched, batch-HasUniqueIds}

scheduled-is_active_for :
    (cfg : Settings) (now : Timestamp) (f : FailedEvent) (source operation : String)
    → is_active f.status ≡ true
    → is_active_for source operation (mark_retry_scheduled cfg now f) ≡ true
    → is_active_for source operation f ≡ true
unfolding is_active_for mark_retry_scheduled
scheduled-is_active_for cfg now f source operation a h = ground arith

module _ (cfg : Settings) (send_task : Broker) where
  retry_one-IsQueue :
      (f : FailedEvent) (s : Session)
      → find failed_id f.id s.db.failed_events ≡ some f
      → is_active f.status ≡ true
      → IsQueue s.db.failed_events
      → IsQueue (retry_one cfg send_task f s).db.failed_events
  unfolding retry_one mark_retry_scheduled
  retry_one-IsQueue f s h a q =
      let row = mark_retry_scheduled cfg (s.world.clock 0) f in
      elim (Bool-cases (send_task f.id f.operation)) [
        | inl took ↦
            rw (took, retry_one)
              (put-IsQueue row s.db.failed_events {f = f} (ground (arith, h))
                (λ source operation p.
                  scheduled-is_active_for cfg (s.world.clock 0) f source operation a p)
                q)
        | inr refused ↦ rw (refused, retry_one) q
      ]

  retry_all-IsQueue :
      (batch : List FailedEvent) (s : Session)
      → HasUniqueIds failed_id batch
      → All (λ f. find failed_id f.id s.db.failed_events ≡ some f) batch
      → All (λ f. is_active f.status ≡ true) batch
      → IsQueue s.db.failed_events
      → IsQueue (retry_all cfg send_task batch s).db.failed_events
  unfolding retry_all
  retry_all-IsQueue [] s u stored a q = q
  retry_all-IsQueue (f ∷ batch) s u stored a q =
      retry_all-IsQueue batch (retry_one cfg send_task f s) u.1
        (rest_stored cfg send_task f batch s stored.0 u.0 stored.1) a.1
        (retry_one-IsQueue f s stored.0 a.0 q)

can_retry-is_active :
    (cfg : Settings) (now : Timestamp) (f : FailedEvent)
    → can_retry cfg now f ≡ true
    → is_active f.status ≡ true
unfolding can_retry
can_retry-is_active cfg now f h = ground arith

-- From a queue with distinct ids and at most one active row for each source and operation, a scan of
-- the retrier ends in such a queue, whichever dispatches fail.
pub process_due_retries-IsQueue :
    (cfg : Settings) (locked : Uuid → Bool) (send_task : Broker) (s : Session)
    → IsQueue s.db.failed_events
    → IsQueue (process_due_retries cfg locked send_task s).1.db.failed_events
unfolding process_due_retries
process_due_retries-IsQueue cfg locked send_task s q =
    let now = s.world.clock 0 in
    let batch = due_batch cfg locked s in
    let facts = batch-IsFetched cfg now locked s.db.failed_events q.ids in
    retry_all-IsQueue cfg send_task batch (record s { world = tick s.world })
      (batch-HasUniqueIds cfg now locked s.db.failed_events q.ids)
      (All-map (λ f e. e.0) batch facts)
      (All-map (λ f e. can_retry-is_active cfg now f e.1) batch facts) q
