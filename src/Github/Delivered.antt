-- ===== src/Github/Delivered.antt =====
-- What the webhook of src/github/router.py makes of a delivery.
use omnisync.Base.{
  ◌≡◌, ◌≢◌, refl, sym, ap, subst, ◌∙◌, inl, inr, ℕ, true, false, String, Option, some, [], ◌∷◌,
  ◌++◌, map, arith, Bool-cases, Option-cases, str_eq, eq_iff, World, or_else, Uuid,
}
use omnisync.Base.Outcome.{Outcome-cases, Outcome, ok, raised}
use omnisync.Config.{Settings}
use omnisync.Session.{Session, Store}
use omnisync.Events.Model.{NormalizedEventCreate}
use omnisync.Events.Upsert.{Key, upsert_events_bulk}
use omnisync.Events.Upsert.Keys.{input_of}
use omnisync.Events.Upsert.Rows.{event_of, IsUnique}
use omnisync.Events.Upsert.Effect.{upserted, upsert_events_bulk-event_of_input}
use omnisync.Events.Upsert.Frame.{
  deliveries-upsert_events_bulk, sync_logs-upsert_events_bulk, committed-upsert_events_bulk,
}
use omnisync.RawPayloads.{Backend, save_raw_payload}
use omnisync.Integrations.{TimeText}
use omnisync.Integrations.Frame.{save_raw_payload_frame}
use omnisync.Webhooks.Delivery.{Reply, duplicate, events_created, receive}
use omnisync.Webhooks.Blocks.{IsBlock, prepared, delivery_state, log_state, events-prepared}
use omnisync.Webhooks.Replies.{receive-raised, receive-accepted, receive-records, receive-again}
use omnisync.Github.Webhook.{
  Body, GitHubWebhookPayload, verify_webhook_signature, webhook_events, webhook_block,
  github_webhook, ticks, upsert_parsed,
}
use omnisync.Github.Normalize.{join}

module _ (cfg : Settings) (backend : Backend) (texts : TimeText) (b : Body)
    (secret body : String) where
  webhook_block-IsBlock :
      (correlation_id : String) → IsBlock (webhook_block cfg backend texts b body correlation_id)
  unfolding webhook_block upsert_parsed
  webhook_block-IsBlock correlation_id s = elim (Outcome-cases (b.validate body)) [
    | inr (e, bad) ↦ rw (bad, webhook_block) (refl, refl, refl)
    | inl (payload, good) ↦
        let saved =
          save_raw_payload cfg backend "github_webhook" (b.dump payload) correlation_id s in
        let frame =
          save_raw_payload_frame cfg backend "github_webhook" (b.dump payload) correlation_id s in
        let events = webhook_events cfg backend texts saved.1.world saved.0 payload in
        let ready = record saved.1 { world = ticks events saved.1.world } in
        rw (good, webhook_block)
          (
            committed-upsert_events_bulk events (some correlation_id) ready ∙ frame.0,
            deliveries-upsert_events_bulk events (some correlation_id) ready
                ∙ ap (λ (d : Store). d.deliveries) frame.1,
            sync_logs-upsert_events_bulk events (some correlation_id) ready
                ∙ ap (λ (d : Store). d.sync_logs) frame.1,
          )
  ]

  module _ (signature delivery : Option String) (correlation_id : String) where
    abbrev answer : Session → Outcome Reply × Session
    answer s = github_webhook cfg backend texts b secret body signature delivery correlation_id s

    abbrev delivery_id : String
    delivery_id = or_else delivery ""

    abbrev received : Session → Outcome Reply × Session
    received s =
        receive "github" delivery_id "github_webhook" correlation_id
          (webhook_block cfg backend texts b body correlation_id) s

    verified :
        (s : Session) {r : Reply}
        → (answer s).0 ≡ ok r
        → (verify_webhook_signature b secret body signature ≡ true) × (answer s ≡ received s)
    unfolding github_webhook
    verified s {r} h = elim (Bool-cases (verify_webhook_signature b secret body signature)) [
      | inl good ↦ (good, rw good refl)
      | inr bad ↦ absurd (cc (rw (bad, github_webhook) at h))
    ]

    -- A delivery that raises, for its signature or in its processing, in a fresh session: nothing of
    -- it is committed or left in the session, its row of `webhook_deliveries` neither, so that the
    -- sender can deliver it again.
    pub github_webhook_failed :
        (s : Session) {e : String}
        → s.db ≡ s.committed
        → (answer s).0 ≡ raised e
        → ((answer s).1.committed ≡ s.committed) × ((answer s).1.db ≡ s.committed)
    unfolding github_webhook
    github_webhook_failed s {e} fresh h =
        elim (Bool-cases (verify_webhook_signature b secret body signature)) [
          | inr bad ↦ rw (bad, github_webhook) (refl, refl)
          | inl good ↦
              rw (good, github_webhook)
                (receive-raised "github" delivery_id "github_webhook" correlation_id
                  (webhook_block cfg backend texts b body correlation_id) s {e = e}
                  (webhook_block-IsBlock correlation_id) (rw (good, github_webhook) at h))
        ]

    -- A delivery that is answered, with a secret that is not empty, carries the signature of its body
    -- under that secret.
    pub github_webhook_authentic :
        (s : Session) {r : Reply}
        → secret ≢ ""
        → (answer s).0 ≡ ok r
        → signature ≡ some (join "sha256=" (b.mac secret body))
    unfolding verify_webhook_signature
    github_webhook_authentic s {r} h q =
        let good = (verified s {r = r} q).0 in
        elim (Option-cases signature) [
          | inl missing ↦ absurd (ground (arith, good, missing, h, eq_iff secret ""))
          | inr (given, found) ↦
              found
              ∙ ap some (
                  ground (
                    arith,
                    good,
                    found,
                    h,
                    eq_iff secret "",
                    eq_iff (join "sha256=" (b.mac secret body)) given,
                  ))
        ]

    -- A delivery with an id that is answered once, in a fresh session: the same delivery again, then
    -- with any correlation id, is a duplicate and changes nothing.
    pub github_webhook_again :
        (s : Session) (again : String) {r : Reply}
        → str_eq delivery_id "" ≡ false
        → s.db ≡ s.committed
        → (answer s).0 ≡ ok r
        → github_webhook cfg backend texts b secret body signature delivery again (answer s).1
          ≡ (ok duplicate, (answer s).1)
    unfolding github_webhook
    github_webhook_again s again {r} given fresh h =
        let first_time = verified s {r = r} h in
        let q : (received s).0 ≡ ok r = cc (first_time.1, h) in
        subst
          (λ (s' : Session).
            github_webhook cfg backend texts b secret body signature delivery again s'
            ≡ (ok duplicate, s'))
          (ap (λ (t : Outcome Reply × Session). t.1) (sym first_time.1))
          (rw (first_time.0, github_webhook)
            (receive-again "github" delivery_id "github_webhook" correlation_id again
              (webhook_block cfg backend texts b body correlation_id)
              (webhook_block cfg backend texts b body again) s {r = r}
              (webhook_block-IsBlock correlation_id) given fresh q))

    -- What an accepted delivery commits, for the payload of its body.
    pub record IsAccepted (payload : GitHubWebhookPayload) (before after : Store) : Type 0 where
      pub w : World
      pub raw_payload_id : Uuid
      pub stored :
          (k : Key) (e : NormalizedEventCreate)
          → input_of k (webhook_events cfg backend texts w raw_payload_id payload) ≡ some e
          → (now : ℕ) × (i : Uuid) × (event_of k after.events
              ≡ some (upserted now i (event_of k before.events) e))
      pub delivery_left :
          map delivery_state after.deliveries
          ≡ map delivery_state before.deliveries ++ ("github", delivery_id, "processing") ∷ []
      pub log_left :
          map log_state after.sync_logs
          ≡ map log_state before.sync_logs ++ (correlation_id, "github_webhook", "started") ∷ []

    block_stored :
        (p : Session) {n : ℕ}
        → IsUnique p.db.events
        → (webhook_block cfg backend texts b body correlation_id p).0 ≡ ok n
        → (payload : GitHubWebhookPayload) × (b.validate body ≡ ok payload)
          × (w : World) × (i : Uuid) × ((k : Key) (e : NormalizedEventCreate)
              → input_of k (webhook_events cfg backend texts w i payload) ≡ some e
              → (now : ℕ) × (j : Uuid) × (event_of k
                    (webhook_block cfg backend texts b body correlation_id p).1.db.events
                  ≡ some (upserted now j (event_of k p.db.events) e)))
    unfolding webhook_block upsert_parsed
    block_stored p {n} u h = elim (Outcome-cases (b.validate body)) [
      | inr (x, bad) ↦ absurd (cc (rw (bad, webhook_block) at h))
      | inl (payload, good) ↦
          let saved =
            save_raw_payload cfg backend "github_webhook" (b.dump payload) correlation_id p in
          let events = webhook_events cfg backend texts saved.1.world saved.0 payload in
          let ready = record saved.1 { world = ticks events saved.1.world } in
          let same : saved.1.db.events ≡ p.db.events =
            ap (λ (d : Store). d.events)
              (save_raw_payload_frame cfg backend "github_webhook" (b.dump payload) correlation_id
                p).1 in
          (
            payload,
            good,
            saved.1.world,
            saved.0,
            λ k e q.
                let found =
                  upsert_events_bulk-event_of_input events (some correlation_id) ready
                    (subst IsUnique (sym same) u) k e q in
                rw (good, webhook_block)
                  (
                    ready.world.clock 0,
                    found.0,
                    subst
                        (λ rows.
                          event_of k
                            (upsert_events_bulk events (some correlation_id) ready).1.db.events
                          ≡ some (upserted (ready.world.clock 0) found.0 (event_of k rows) e))
                        same found.1,
                  ),
          )
    ]

    -- A delivery with an id is accepted, over a table of events that meets its constraint: it commits
    -- the upsert of the events of its payload. It also commits its row of `webhook_deliveries` with
    -- the status "processing" and its log with the status "started": the updates to "completed" that
    -- the handler makes after its commit are not committed.
    pub github_webhook-IsAccepted :
        (s : Session) {n : ℕ}
        → str_eq delivery_id "" ≡ false
        → IsUnique s.db.events
        → (answer s).0 ≡ ok (events_created n)
        → (payload : GitHubWebhookPayload) × (b.validate body ≡ ok payload)
          × IsAccepted payload s.db (answer s).1.committed
    github_webhook-IsAccepted s {n} given u h =
        let seen = verified s {r = events_created n} h in
        let q : (received s).0 ≡ ok (events_created n) = cc (seen.1, h) in
        let opened = (prepared "github" delivery_id "github_webhook" correlation_id s).1 in
        let block = webhook_block cfg backend texts b body correlation_id in
        let done =
          receive-accepted "github" delivery_id "github_webhook" correlation_id block s {n = n} q in
        let records =
          receive-records "github" delivery_id "github_webhook" correlation_id block s {n = n}
            (webhook_block-IsBlock correlation_id) given q in
        let rows = events-prepared "github" delivery_id "github_webhook" correlation_id s in
        let written = block_stored opened {n = n} (subst IsUnique (sym rows) u) done.0 in
        rw (seen.1) (
          written.0,
          written.1,
          record {
            w = written.2;
            raw_payload_id = written.3;
            stored = λ k e p.
                let found = written.4 k e p in
                (
                  found.0,
                  found.1,
                  ap (λ (d : Store). event_of k d.events) done.1
                      ∙ found.2
                      ∙ ap (λ t. some (upserted found.0 found.1 (event_of k t) e)) rows,
                );
            delivery_left = records.0;
            log_left = records.1;
          },
        )
