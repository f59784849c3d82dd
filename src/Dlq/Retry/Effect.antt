-- ===== src/Dlq/Retry/Effect.antt =====
-- One scan of the retrier, row by row.
use omnisync.Base.{
  suc, Option, ◌+◌, ◌≤◌, ◌<◌, leb, ◌≡◌, refl, ap, ◌∙◌, inl, inr, ◌⊎◌, Bool, true, false, none, some,
  arith, Bool-cases, Uuid, Timestamp,
}
use omnisync.Base.Rows.{find, HasUniqueIds}
use omnisync.Config.{Settings}
use omnisync.Session.{Session}
use omnisync.Dlq.Model.{FailedEvent, Status, pending, retrying, exhausted, resolved, failed}
use omnisync.Dlq.Backoff.{compute_backoff}
use omnisync.Dlq.Record.{is_active}
use omnisync.Dlq.Record.Collapse.{failed_id}
use omnisync.Dlq.Retry.{
  Broker, is_due, can_retry, mark_retry_scheduled, due_batch, process_due_retries,
}
use omnisync.Dlq.Retry.Scan.{scanned_row}

-- Nothing to wait for at a time.
abbrev pub IsDue : Timestamp → Option Timestamp → Type 0
IsDue now none = Unit
IsDue now (some t) = t ≤ now

-- An active entry below the maximum of attempts, with no time to wait for.
abbrev pub IsRetriable : Settings → Timestamp → FailedEvent → Type 0
IsRetriable cfg now f =
    ((f.status ≡ pending) ⊎ (f.status ≡ retrying))
    × (f.replay_attempts < cfg.dlq_max_replay_attempts)
    × IsDue now f.next_retry_at

-- An entry whose task was sent once more: it waits for the next retry, or it is given up.
pub record IsRetried (cfg : Settings) (now : Timestamp) (f g : FailedEvent) : Type 0 where
  pub attempts : g.replay_attempts ≡ suc f.replay_attempts
  pub last_attempt : g.last_attempt_at ≡ some now
  pub outcome :
      ((suc f.replay_attempts < cfg.dlq_max_replay_attempts)
        × (g.status ≡ retrying)
        × (g.next_retry_at ≡ some (now + compute_backoff cfg (suc f.replay_attempts))))
      ⊎ ((cfg.dlq_max_replay_attempts ≤ suc f.replay_attempts)
          × (g.status ≡ exhausted)
          × (g.next_retry_at ≡ none))
  pub others : g ≡ record f {
    replay_attempts = g.replay_attempts;
    last_attempt_at = g.last_attempt_at;
    status = g.status;
    next_retry_at = g.next_retry_at;
  }

is_due-IsDue : (now : Timestamp) (t : Option Timestamp) → is_due now t ≡ true → IsDue now t
unfolding is_due
is_due-IsDue now none h = tt
is_due-IsDue now (some t) h = ground (arith, h)

is_active-cases :
    (status : Status) → is_active status ≡ true → (status ≡ pending) ⊎ (status ≡ retrying)
unfolding is_active
is_active-cases pending h = inl refl
is_active-cases retrying h = inr refl
is_active-cases exhausted h = absurd (cc)
is_active-cases resolved h = absurd (cc)
is_active-cases failed h = absurd (cc)

can_retry-IsRetriable :
    (cfg : Settings) (now : Timestamp) (f : FailedEvent)
    → can_retry cfg now f ≡ true
    → IsRetriable cfg now f
unfolding can_retry
can_retry-IsRetriable cfg now f h = (
  is_active-cases f.status (ground (arith, h)),
  ground (arith, h),
  is_due-IsDue now f.next_retry_at (ground (arith, h)),
)

mark_retry_scheduled-IsRetried :
    (cfg : Settings) (now : Timestamp) (f : FailedEvent)
    → IsRetried cfg now f (mark_retry_scheduled cfg now f)
unfolding mark_retry_scheduled
mark_retry_scheduled-IsRetried cfg now f =
    elim (Bool-cases (leb cfg.dlq_max_replay_attempts (f.replay_attempts + 1))) [
      | inl last ↦
          rw (last, mark_retry_scheduled)
            (record {
              attempts = omega arith;
              last_attempt = refl;
              outcome = inr (ground (arith, last), refl, refl);
              others = refl;
            })
      | inr more ↦
          rw (more, mark_retry_scheduled)
            (record {
              attempts = omega arith;
              last_attempt = refl;
              outcome = inl (
                ground (arith, more),
                refl,
                ap (λ n. some (now + compute_backoff cfg n)) (omega arith),
              );
              others = refl;
            })
    ]

-- One scan of the retrier, over a table with distinct ids, leaves each stored entry as it was, if
-- the scan did not fetch it. Else the entry was pending or retrying, below the maximum of attempts,
-- due at the start of the scan and unlocked. If the broker refused its task, it is left as it was. If
-- the broker took it, one more attempt is counted with its time, and the entry is retried after the
-- backoff of the attempts that it has now, or it is exhausted and has no next retry, if they reached
-- the maximum. So entries that are exhausted, resolved or failed never change.
pub process_due_retries_row :
    (cfg : Settings) (locked : Uuid → Bool) (send_task : Broker) (s : Session) (i : Uuid)
    {f : FailedEvent}
    → HasUniqueIds failed_id s.db.failed_events
    → find failed_id i s.db.failed_events ≡ some f
    → let after = (process_due_retries cfg locked send_task s).1.db.failed_events in
      ((find failed_id i (due_batch cfg locked s) ≡ none) × (find failed_id i after ≡ some f))
      ⊎ ((find failed_id i (due_batch cfg locked s) ≡ some f)
          × IsRetriable cfg (s.world.clock 0) f
          × (locked i ≡ false)
          × (((send_task i f.operation ≡ false) × (find failed_id i after ≡ some f))
              ⊎ ((send_task i f.operation ≡ true)
                  × (now : Timestamp) × (g : FailedEvent) × (find failed_id i after ≡ some g)
                  × IsRetried cfg now f g)))
process_due_retries_row cfg locked send_task s i {f} u h =
    elim (scanned_row cfg locked send_task s i {f = f} u h) [
      | inl left ↦ inl left
      | inr (fetched, retriable, unlocked, now, done) ↦ inr (
        fetched,
        can_retry-IsRetriable cfg (s.world.clock 0) f retriable,
        unlocked,
        elim (Bool-cases (send_task i f.operation)) [
          | inr refused ↦ inl (refused, done ∙ rw refused refl)
          | inl took ↦ inr (
            took,
            now,
            mark_retry_scheduled cfg now f,
            done ∙ rw took refl,
            mark_retry_scheduled-IsRetried cfg now f,
          )
        ],
      )
    ]
