-- ===== src/Outbox/Publish.antt =====
-- The publisher: `fetch_pending`, `mark_published`, `mark_failed` of src/outbox/service.py and
-- `_publish_outbox` of src/outbox/tasks.py.
pub mod Effect
pub mod Attempts
use omnisync.Base.{
  ℕ, zero, suc, ◌+◌, Bool, true, false, not, ◌&&◌, String, Option, none, some, List, [], ◌∷◌, leb,
  ltb, ◌==◌, if◌then◌else◌, select, take, cut, Uuid, Timestamp, tick,
}
use omnisync.Base.Keyset.{sort}
use omnisync.Base.Rows.{put}
use omnisync.Config.{Settings}
use omnisync.Session.{Session, commit}
use omnisync.Outbox.Model.{OutboxEvent, Status, Payload, pending, published, dead}

unfoldable pub is_pending : Status → Bool
is_pending pending = true
is_pending _ = false

-- `limit or settings.OUTBOX_BATCH_SIZE`: zero is false.
limit_or : Option ℕ → ℕ → ℕ
limit_or none d = d
limit_or (some zero) d = d
limit_or (some (suc n)) d = suc n

-- Rows that another worker has locked are skipped.
unfoldable pub fetch_pending :
    Settings → Option ℕ → (Uuid → Bool) → List OutboxEvent → List OutboxEvent
unfolding is_pending limit_or
fetch_pending cfg limit locked rows =
    take (limit_or limit cfg.outbox_batch_size)
      (sort ltb (λ o. o.created_at) (select (λ o. is_pending o.status && not (locked o.id)) rows))

unfoldable pub mark_published : Timestamp → OutboxEvent → OutboxEvent
mark_published now o = record o {
  status = published;
  published_at = some now;
  attempts = o.attempts + 1;
}

unfoldable pub mark_failed : Settings → String → OutboxEvent → OutboxEvent
mark_failed cfg error o =
    let attempts = o.attempts + 1 in
    record o {
      attempts = attempts;
      last_error = some (cut 1000 error);
      status = if leb cfg.outbox_max_attempts attempts then dead else o.status;
    }

-- `index_event` of src/search/vector.py, as the run finds it: whether the index took the event.
abbrev pub Indexer : Type 0
Indexer = Uuid → String → String → String → Bool

abbrev publication_error : String
publication_error = "vector index publication failed"

-- `_publish_one`: the error that it raises, if it does.
unfoldable pub publish_one : Indexer → OutboxEvent → Option String
publish_one index_event o =
    let p = o.payload in
    if index_event p.event_id p.content p.source p.event_type then none else some publication_error

-- The body of the loop: the row as it is left, and the clock if it was read.
unfoldable pub deliver : Settings → Indexer → OutboxEvent → Session → Session
unfolding publish_one mark_published mark_failed
deliver cfg index_event o s = elim (publish_one index_event o) [
  | none ↦ record s {
    db = record s.db { outbox = put (λ r. r.id) (mark_published (s.world.clock 0) o) s.db.outbox };
    world = tick s.world;
  }
  | some e ↦ record s {
    db = record s.db { outbox = put (λ r. r.id) (mark_failed cfg e o) s.db.outbox };
  }
]

unfoldable pub deliver_all : Settings → Indexer → List OutboxEvent → Session → Session
unfolding deliver
deliver_all cfg index_event [] s = s
deliver_all cfg index_event (o ∷ os) s =
    deliver_all cfg index_event os (deliver cfg index_event o s)

-- The count that the task returns.
count_published : Indexer → List OutboxEvent → ℕ
unfolding publish_one
count_published index_event [] = 0
count_published index_event (o ∷ os) =
    let rest = count_published index_event os in
    elim (publish_one index_event o) [ none ↦ rest + 1 | some _ ↦ rest ]

unfoldable pub publish_outbox : Settings → (Uuid → Bool) → Indexer → Session → ℕ × Session
unfolding fetch_pending deliver_all count_published
publish_outbox cfg locked index_event s =
    let batch = fetch_pending cfg none locked s.db.outbox in
    (count_published index_event batch, commit (deliver_all cfg index_event batch s))
