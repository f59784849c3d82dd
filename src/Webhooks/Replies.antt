-- ===== src/Webhooks/Replies.antt =====
-- What a delivery leaves behind, for any `try` block that writes neither the log nor the deliveries
-- and does not commit.
use omnisync.Base.{
  ◌≡◌, refl, sym, ap, subst, ◌∙◌, inl, inr, ℕ, true, false, String, List, [], ◌∷◌, ◌++◌, any, map,
  Bool-cases, str_eq, eq_iff,
}
use omnisync.Base.Rows.First.{any-append}
use omnisync.Base.Outcome.{Outcome, Outcome-cases, ok, raised}
use omnisync.Session.{Session, Store, close}
use omnisync.Webhooks.Delivery.{Reply, duplicate, events_created, is_known, settle, receive}
use omnisync.Webhooks.Blocks.{
  Process, IsBlock, prepared, delivery_state, log_state, committed-prepared, deliveries-prepared,
  sync_logs-prepared, settle-raised, settle-ok, marks, any_marked,
}

module _ (source delivery_id operation correlation_id : String) (process : Process) where
  abbrev answer : Session → Outcome Reply × Session
  answer s = receive source delivery_id operation correlation_id process s

  abbrev block : Session → Outcome ℕ × Session
  block s = process (prepared source delivery_id operation correlation_id s).1

  receive-new :
      (s : Session)
      → is_known source delivery_id s.db ≡ false
      → answer s
        ≡ settle source delivery_id
            (prepared source delivery_id operation correlation_id s).0
            (block s)
  unfolding receive
  receive-new s new = rw (new, receive) refl

  receive-known :
      (s : Session) → is_known source delivery_id s.db ≡ true → answer s ≡ (ok duplicate, close s)
  unfolding receive
  receive-known s known = rw (known, receive) refl

  -- What a handler that raises leaves: a fresh session over the store as it was.
  pub receive-raised :
      (s : Session) {e : String}
      → IsBlock process
      → (answer s).0 ≡ raised e
      → ((answer s).1.committed ≡ s.committed) × ((answer s).1.db ≡ s.committed)
  receive-raised s {e} b h = elim (Bool-cases (is_known source delivery_id s.db)) [
    | inl known ↦ absurd (cc (receive-known s known, h))
    | inr new ↦ elim (Outcome-cases (block s).0) [
      | inl (n, done) ↦
          let settled =
            settle-ok source delivery_id (prepared source delivery_id operation correlation_id s).0
              (block s) {n = n} done in
          absurd (cc (receive-new s new, settled.0, h))
      | inr (x, failed) ↦
          let settled =
            settle-raised source delivery_id
              (prepared source delivery_id operation correlation_id s).0 (block s) {x = x} failed in
          let kept =
            (b (prepared source delivery_id operation correlation_id s).1).0
            ∙ committed-prepared source delivery_id operation correlation_id s in
          rw (receive-new s new) (settled.1 ∙ kept, settled.2 ∙ kept)
    ]
  ]

  -- What an answered delivery leaves: the block is committed, and nothing after it.
  pub receive-accepted :
      (s : Session) {n : ℕ}
      → (answer s).0 ≡ ok (events_created n)
      → ((block s).0 ≡ ok n)
        × ((answer s).1.committed ≡ (block s).1.db)
        × ((answer s).1.db ≡ (block s).1.db)
  receive-accepted s {n} h = elim (Bool-cases (is_known source delivery_id s.db)) [
    | inl known ↦ absurd (cc (receive-known s known, h))
    | inr new ↦ elim (Outcome-cases (block s).0) [
      | inr (x, failed) ↦
          let settled =
            settle-raised source delivery_id
              (prepared source delivery_id operation correlation_id s).0 (block s) {x = x} failed in
          absurd (cc (receive-new s new, settled.0, h))
      | inl (m, done) ↦
          let settled =
            settle-ok source delivery_id (prepared source delivery_id operation correlation_id s).0
              (block s) {n = m} done in
          let same : m ≡ n = cc (receive-new s new, settled.0, h) in
          (done ∙ ap ok same, rw (receive-new s new) settled.1, rw (receive-new s new) settled.2)
    ]
  ]

  -- The rows of the two tables, as an answered delivery commits them.
  pub receive-records :
      (s : Session) {n : ℕ}
      → IsBlock process
      → str_eq delivery_id "" ≡ false
      → (answer s).0 ≡ ok (events_created n)
      → (map delivery_state (answer s).1.committed.deliveries
          ≡ map delivery_state s.db.deliveries ++ (source, delivery_id, "processing") ∷ [])
        × (map log_state (answer s).1.committed.sync_logs
            ≡ map log_state s.db.sync_logs ++ (correlation_id, operation, "started") ∷ [])
  receive-records s {n} b given h =
      let done = receive-accepted s {n = n} h in
      let kept = b (prepared source delivery_id operation correlation_id s).1 in
      (
        ap (λ (d : Store). map delivery_state d.deliveries) done.1
            ∙ ap (map delivery_state) kept.1
            ∙ deliveries-prepared source delivery_id operation correlation_id s given,
        ap (λ (d : Store). map log_state d.sync_logs) done.1
            ∙ ap (map log_state) kept.2
            ∙ sync_logs-prepared source delivery_id operation correlation_id s,
      )

any_append_marked :
    (source delivery_id : String) (ks : List (String × String × String)) (status : String)
    → any (marks source delivery_id) (ks ++ (source, delivery_id, status) ∷ []) ≡ true
any_append_marked source delivery_id ks status =
    any-append (marks source delivery_id) (source, delivery_id, status) ks
      (rw ((eq_iff source source).1 refl, (eq_iff delivery_id delivery_id).1 refl) refl)

known-receive :
    (source delivery_id operation correlation_id : String) (process : Process) (s : Session)
    {r : Reply}
    → IsBlock process
    → str_eq delivery_id "" ≡ false
    → is_known source delivery_id s.db ≡ false
    → (receive source delivery_id operation correlation_id process s).0 ≡ ok r
    → let s' = (receive source delivery_id operation correlation_id process s).1 in
      (s'.db ≡ s'.committed) × (is_known source delivery_id s'.db ≡ true)
unfolding is_known
known-receive source delivery_id operation correlation_id process s {r} b given new h =
    let opened = prepared source delivery_id operation correlation_id s in
    let new_answer = receive-new source delivery_id operation correlation_id process s new in
    elim (Outcome-cases (process opened.1).0) [
      | inr (x, failed) ↦
          let settled =
            settle-raised source delivery_id opened.0 (process opened.1) {x = x} failed in
          absurd (cc (new_answer, settled.0, h))
      | inl (n, done) ↦
          let settled = settle-ok source delivery_id opened.0 (process opened.1) {n = n} done in
          let rows =
            ap (map delivery_state) (
              ap (λ (d : Store). d.deliveries)
                (ap (λ (t : Outcome Reply × Session). t.1.db) new_answer ∙ settled.2)
              ∙ (b opened.1).1)
            ∙ deliveries-prepared source delivery_id operation correlation_id s given in
          (
            ap (λ (t : Outcome Reply × Session). t.1.db) new_answer
                ∙ settled.2
                ∙ sym (ap (λ (t : Outcome Reply × Session). t.1.committed) new_answer ∙ settled.1),
            rw given (
                any_marked source delivery_id
                  (receive source delivery_id operation correlation_id process s).1.db.deliveries
                ∙ ap (any (marks source delivery_id)) rows
                ∙ any_append_marked source delivery_id (map delivery_state s.db.deliveries)
                    "processing"),
          )
    ]

-- Once a delivery with an id is answered, whatever arrives under that id is a duplicate, and
-- changes nothing.
pub receive-again :
    (source delivery_id operation correlation_id again : String) (process process' : Process)
    (s : Session) {r : Reply}
    → IsBlock process
    → str_eq delivery_id "" ≡ false
    → s.db ≡ s.committed
    → (receive source delivery_id operation correlation_id process s).0 ≡ ok r
    → let s' = (receive source delivery_id operation correlation_id process s).1 in
      receive source delivery_id operation again process' s' ≡ (ok duplicate, s')
receive-again source delivery_id operation correlation_id again process process' s {r} b given fresh
      h =
    elim (Bool-cases (is_known source delivery_id s.db)) [
      | inl known ↦ rw (receive-known source delivery_id operation correlation_id process s known) (
          receive-known source delivery_id operation again process' (close s)
            (subst (λ d. is_known source delivery_id d ≡ true) fresh known))
      | inr new ↦
          let s' = (receive source delivery_id operation correlation_id process s).1 in
          let answered =
            known-receive source delivery_id operation correlation_id process s {r = r} b given new
              h in
          receive-known source delivery_id operation again process' s' answered.1
          ∙ ap (λ (d : Store). (ok duplicate, record s' { db = d })) (sym answered.0)
    ]
