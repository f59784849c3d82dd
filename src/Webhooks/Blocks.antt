-- ===== src/Webhooks/Blocks.antt =====
-- The `try` block of a webhook, and the rows that frame it.
use omnisync.Base.{
  ◌≡◌, refl, ap, inl, inr, ℕ, ◌&&◌, Bool, false, String, List, [], ◌∷◌, ◌++◌, any, map, arith,
  Bool-cases, str_eq, Uuid,
}
use omnisync.Base.Outcome.{Outcome, ok, raised}
use omnisync.Session.{Session}
use omnisync.SyncLogs.{create_sync_log, update_sync_log_status}
use omnisync.SyncLogs.Model.{SyncLog}
use omnisync.Webhooks.Model.{WebhookDelivery}
use omnisync.Webhooks.Delivery.{
  Reply, events_created, is_delivery, begin_delivery, complete_delivery, fail_delivery, settle,
}

abbrev pub Process : Type 0
Process = Session → Outcome ℕ × Session

-- The block is one transaction, which leaves the two tables of the handler alone.
abbrev pub IsBlock : Process → Type 0
IsBlock process =
    (s : Session)
    → ((process s).1.committed ≡ s.committed)
      × ((process s).1.db.deliveries ≡ s.db.deliveries)
      × ((process s).1.db.sync_logs ≡ s.db.sync_logs)

-- The session that the block starts in.
abbrev pub prepared : String → String → String → String → Session → Uuid × Session
prepared source delivery_id operation correlation_id s =
    create_sync_log correlation_id operation "started" (begin_delivery source delivery_id s)

-- Only these of a row are looked at afterwards.
abbrev pub delivery_state : WebhookDelivery → String × String × String
delivery_state d = (d.source, d.delivery_id, d.status)

abbrev pub log_state : SyncLog → String × String × String
log_state l = (l.correlation_id, l.source, l.status)

pub committed-prepared :
    (source delivery_id operation correlation_id : String) (s : Session)
    → (prepared source delivery_id operation correlation_id s).1.committed ≡ s.committed
unfolding create_sync_log begin_delivery
committed-prepared source delivery_id operation correlation_id s = ground arith

pub map_append-one {ℓ κ} :
    {A : Type ℓ} {B : Type κ} (f : A → B) (xs : List A) (x : A)
    → map f (xs ++ x ∷ []) ≡ map f xs ++ f x ∷ []
map_append-one f [] x = refl
map_append-one f (y ∷ xs) x = ap (◌∷◌ (f y)) (map_append-one f xs x)

pub deliveries-prepared :
    (source delivery_id operation correlation_id : String) (s : Session)
    → str_eq delivery_id "" ≡ false
    → map delivery_state (prepared source delivery_id operation correlation_id s).1.db.deliveries
      ≡ map delivery_state s.db.deliveries ++ (source, delivery_id, "processing") ∷ []
unfolding create_sync_log begin_delivery
deliveries-prepared source delivery_id operation correlation_id s h =
    rw h (map_append-one delivery_state s.db.deliveries _)

pub events-prepared :
    (source delivery_id operation correlation_id : String) (s : Session)
    → (prepared source delivery_id operation correlation_id s).1.db.events ≡ s.db.events
unfolding create_sync_log begin_delivery
events-prepared source delivery_id operation correlation_id s = ground arith

pub sync_logs-prepared :
    (source delivery_id operation correlation_id : String) (s : Session)
    → map log_state (prepared source delivery_id operation correlation_id s).1.db.sync_logs
      ≡ map log_state s.db.sync_logs ++ (correlation_id, operation, "started") ∷ []
unfolding create_sync_log begin_delivery
sync_logs-prepared source delivery_id operation correlation_id s =
    elim (Bool-cases (str_eq delivery_id "")) [
      | inl e ↦ rw e (map_append-one log_state s.db.sync_logs _)
      | inr e ↦ rw e (map_append-one log_state s.db.sync_logs _)
    ]

abbrev reply_of : Outcome ℕ → Outcome Reply
reply_of (ok n) = ok (events_created n)
reply_of (raised e) = raised e

pub settle-raised :
    (source delivery_id : String) (log_id : Uuid) (r : Outcome ℕ × Session) {x : String}
    → r.0 ≡ raised x
    → let (o, s') = settle source delivery_id log_id r in
      (o ≡ raised x) × (s'.committed ≡ r.1.committed) × (s'.db ≡ r.1.committed)
unfolding settle update_sync_log_status fail_delivery
settle-raised source delivery_id log_id (ok n, s) h = absurd (cc)
settle-raised source delivery_id log_id (raised e, s) h =
    let same = ap (λ (o : Outcome ℕ). reply_of o) h in
    elim (Bool-cases (str_eq delivery_id "")) [
      | inl none_given ↦ rw none_given (same, refl, refl)
      | inr given ↦ rw given (same, refl, refl)
    ]

pub settle-ok :
    (source delivery_id : String) (log_id : Uuid) (r : Outcome ℕ × Session) {n : ℕ}
    → r.0 ≡ ok n
    → let (o, s') = settle source delivery_id log_id r in
      (o ≡ ok (events_created n)) × (s'.committed ≡ r.1.db) × (s'.db ≡ r.1.db)
unfolding settle update_sync_log_status complete_delivery
settle-ok source delivery_id log_id (raised e, s) h = absurd (cc)
settle-ok source delivery_id log_id (ok m, s) h =
    let same = ap (λ (o : Outcome ℕ). reply_of o) h in
    elim (Bool-cases (str_eq delivery_id "")) [
      | inl none_given ↦ rw none_given (same, refl, refl)
      | inr given ↦ rw given (same, refl, refl)
    ]

abbrev pub marks : String → String → String × String × String → Bool
marks source delivery_id k = str_eq k.0 source && str_eq k.1 delivery_id

pub any_marked :
    (source delivery_id : String) (rows : List WebhookDelivery)
    → any (is_delivery source delivery_id) rows
      ≡ any (marks source delivery_id) (map delivery_state rows)
unfolding is_delivery
any_marked source delivery_id [] = refl
any_marked source delivery_id (d ∷ rows) = rw (any_marked source delivery_id rows)
