-- ===== src/Dlq/Replay/Effect.antt =====
-- What a manual replay answers and commits.
use omnisync.Base.{
  ◌+◌, ◌≡◌, ◌≢◌, refl, sym, ap, subst, inl, inr, ◌⊎◌, true, false, none, some, arith, Bool-cases,
  Option-cases, Uuid, Timestamp,
}
use omnisync.Base.Rows.{find, find-put, find-All, find_self}
use omnisync.Session.{Session, commit, close}
use omnisync.Dlq.Model.{FailedEvent, resolved}
use omnisync.Dlq.Record.{get_failed, is_active, is_active_for}
use omnisync.Dlq.Record.Collapse.{failed_id, IsQueue, put-IsQueue}
use omnisync.Dlq.Retry.{Broker}
use omnisync.Dlq.Replay.{
  replayed, event_not_found, broker_error, mark_resolved, replay_failed_event,
}

-- The entry after a replay at a time: resolved, not to be retried, with one more attempt.
abbrev pub replayed_row : Timestamp → FailedEvent → FailedEvent
replayed_row now f = record f {
  replay_attempts = f.replay_attempts + 1;
  status = resolved;
  next_retry_at = none;
  resolved_at = some now;
}

-- A manual replay in a fresh session, over a queue with distinct ids and at most one active row for
-- each source and operation: it answers "not found" exactly if no entry has the id. If the broker
-- takes the task, the entry is committed as resolved and the others as they were. On both errors
-- nothing is committed. The committed table is again such a queue.
pub replay_failed_event_lem :
    (send_task : Broker) (i : Uuid) (s : Session)
    → s.db ≡ s.committed
    → IsQueue s.db.failed_events
    → let (answer, s') = replay_failed_event send_task i s in
      let before = s.committed.failed_events in
      IsQueue s'.committed.failed_events
      × (((find failed_id i before ≡ none)
            × (answer ≡ event_not_found)
            × (s'.committed ≡ s.committed))
          ⊎ ((f : FailedEvent) × (find failed_id i before ≡ some f)
              × (((send_task i f.operation ≡ false)
                    × (answer ≡ broker_error)
                    × (s'.committed ≡ s.committed))
                  ⊎ ((send_task i f.operation ≡ true)
                      × (answer ≡ replayed i)
                      × (find failed_id i s'.committed.failed_events
                          ≡ some (replayed_row (s.world.clock 0) f))
                      × ((j : Uuid)
                          → j ≢ i
                          → find failed_id j s'.committed.failed_events
                            ≡ find failed_id j before)))))
unfolding replay_failed_event mark_resolved get_failed is_active_for is_active
replay_failed_event_lem send_task i s fresh q =
    let rows = s.db.failed_events in
    let same : rows ≡ s.committed.failed_events =
      ap (λ (t : omnisync.Session.Store). t.failed_events) fresh in
    let q' : IsQueue s.committed.failed_events = subst IsQueue same q in
    elim (Option-cases (find failed_id i rows)) [
      | inl missing ↦
          rw (missing, replay_failed_event)
            (q', inl (subst (λ r. find failed_id i r ≡ none) same missing, refl, refl))
      | inr (f, found) ↦
          let here : f.id ≡ i =
            (find-All failed_id (λ g. find failed_id g.id rows ≡ some g) i rows {a = f}
              (find_self failed_id rows q.ids) found).1 in
          let had = subst (λ r. find failed_id i r ≡ some f) same found in
          let row = replayed_row (s.world.clock 0) f in
          elim (Bool-cases (send_task f.id f.operation)) [
            | inl took ↦
                rw (found, took, replay_failed_event)
                  (
                    put-IsQueue row rows {f = f}
                        (subst (λ k. find failed_id k rows ≡ some f) (sym here) found)
                        (λ a b h. ground (arith, h)) q,
                    inr (
                      f,
                      had,
                      inr (
                        rw (← here) took,
                        refl,
                        ground (arith, find-put failed_id i row rows),
                        λ j n. ground (arith, find-put failed_id j row rows, same),
                      ),
                    ),
                  )
            | inr refused ↦
                rw (found, refused, replay_failed_event)
                  (q', inr (f, had, inl (rw (← here) refused, refl, refl)))
          ]
    ]
