-- ===== src/Webhooks/Delivery.antt =====
-- What the two webhook handlers share, src/github/router.py and src/telegram/router.py: the check
-- of the delivery, the log of the run, and how the outcome of the `try` block is recorded. An empty
-- delivery id is none.
use omnisync.Base.{
  ℕ, Bool, ◌&&◌, false, String, none, some, [], ◌∷◌, ◌++◌, any, update, str_eq, cut, if◌then◌else◌,
  Uuid, draw, tick,
}
use omnisync.Base.Outcome.{Outcome, ok, raised}
use omnisync.Session.{Session, Store, commit, rollback, close}
use omnisync.SyncLogs.{create_sync_log, update_sync_log_status}
use omnisync.Webhooks.Model.{WebhookDelivery}

-- The answer to a delivery.
pub data Reply : Type 0 where
  duplicate : Reply
  events_created : ℕ → Reply

unfoldable pub is_delivery : String → String → WebhookDelivery → Bool
is_delivery source delivery_id d = str_eq d.source source && str_eq d.delivery_id delivery_id

-- The query for an existing row.
unfoldable pub is_known : String → String → Store → Bool
unfolding is_delivery
is_known source delivery_id db =
    if str_eq delivery_id "" then false else any (is_delivery source delivery_id) db.deliveries

-- `db.add(WebhookDelivery(…))` and the flush.
unfoldable pub begin_delivery : String → String → Session → Session
begin_delivery source delivery_id s =
    let row : WebhookDelivery = record {
      id = s.world.uuids 0;
      source = source;
      delivery_id = delivery_id;
      status = "processing";
      error_text = none;
      received_at = s.world.clock 0;
    } in
    if str_eq delivery_id "" then s else record s {
      db = record s.db { deliveries = s.db.deliveries ++ row ∷ [] };
      world = tick (draw s.world);
    }

-- The UPDATE of the delivery; a completed one keeps its `error_text`.
unfoldable pub complete_delivery : String → String → Session → Session
unfolding is_delivery
complete_delivery source delivery_id s = if str_eq delivery_id "" then s else record s {
  db = record s.db {
    deliveries =
        update (is_delivery source delivery_id) (λ d. record d { status = "completed" })
          s.db.deliveries;
  };
}

unfoldable pub fail_delivery : String → String → String → Session → Session
unfolding is_delivery
fail_delivery source delivery_id e s = if str_eq delivery_id "" then s else record s {
  db = record s.db {
    deliveries =
        update (is_delivery source delivery_id)
          (λ d. record d { status = "failed"; error_text = some (cut 500 e) }) s.db.deliveries;
  };
}

-- After the `try` block up to its commit. The session of the request is closed at the end.
unfoldable pub settle : String → String → Uuid → Outcome ℕ × Session → Outcome Reply × Session
unfolding update_sync_log_status complete_delivery fail_delivery
settle source delivery_id log_id (ok n, s) = (
  ok (events_created n),
  close (
      complete_delivery source delivery_id
        (update_sync_log_status log_id "completed" none (commit s))),
)
settle source delivery_id log_id (raised e, s) = (
  raised e,
  close (
      fail_delivery source delivery_id e
        (update_sync_log_status log_id "failed" (some e) (rollback s))),
)

-- A handler from the check of the delivery on; `process` is its `try` block up to the commit.
unfoldable pub receive :
    String
    → String
    → String
    → String
    → (Session → Outcome ℕ × Session)
    → Session
    → Outcome Reply × Session
unfolding is_known begin_delivery create_sync_log settle
receive source delivery_id operation correlation_id process s =
    if is_known source delivery_id s.db
    then (ok duplicate, close s)
    else (let (log_id, s') =
          create_sync_log correlation_id operation "started"
            (begin_delivery source delivery_id s) in
        settle source delivery_id log_id (process s'))
