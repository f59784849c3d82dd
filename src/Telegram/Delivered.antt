-- ===== src/Telegram/Delivered.antt =====
-- What the webhook of src/telegram/router.py makes of a delivery, and of two messages of the same number.
use omnisync.Base.{
  ◌≡◌, refl, sym, ap, subst, ◌∙◌, inl, inr, false, String, Option, none, some, [], ◌∷◌,
  Option-cases, str_eq, Uuid, Timestamp,
}
use omnisync.Base.Json.{Json, Fields}
use omnisync.Base.Outcome.{Outcome-cases, Outcome, ok, raised}
use omnisync.Config.{Settings}
use omnisync.Session.{Session, Store}
use omnisync.Events.Model.{NormalizedEventCreate}
use omnisync.Events.Upsert.{Key, key_of, upsert_event, upsert_events_bulk}
use omnisync.Events.Upsert.Keys.{input_of, same_key_refl}
use omnisync.Events.Upsert.Rows.{event_of, IsUnique}
use omnisync.Events.Upsert.Effect.{
  upserted, upsert_events_bulk-event_of_input, upsert_events_bulk_others,
}
use omnisync.Events.Upsert.Frame.{
  deliveries-upsert_events_bulk, sync_logs-upsert_events_bulk, committed-upsert_events_bulk,
}
use omnisync.RawPayloads.{Backend, save_raw_payload}
use omnisync.Integrations.Frame.{save_raw_payload_frame}
use omnisync.Webhooks.Delivery.{Reply, duplicate, receive}
use omnisync.Webhooks.Blocks.{IsBlock}
use omnisync.Webhooks.Replies.{receive-raised, receive-again}
use omnisync.Github.Normalize.{decimal}
use omnisync.Telegram.Normalize.{TelegramMessage, message_event, parse_message_to_event}
use omnisync.Telegram.Webhook.{
  Input, check_secret, delivery_of, after_parse, upsert_parsed, take_message, webhook_block,
  telegram_webhook,
}

-- What a block leaves alone, from one session to the next.
abbrev Keeps : Session → Session → Type 0
Keeps s' s =
    (s'.committed ≡ s.committed)
    × (s'.db.deliveries ≡ s.db.deliveries)
    × (s'.db.sync_logs ≡ s.db.sync_logs)

upsert_event-Keeps : (e : NormalizedEventCreate) (s : Session) → Keeps (upsert_event e none s).1 s
unfolding upsert_event
upsert_event-Keeps e s = (
  committed-upsert_events_bulk (e ∷ []) none s,
  deliveries-upsert_events_bulk (e ∷ []) none s,
  sync_logs-upsert_events_bulk (e ∷ []) none s,
)

parsed-Keeps :
    (event : Option NormalizedEventCreate) (s : Session)
    → Keeps (upsert_parsed event (after_parse event s)).1 s
unfolding upsert_parsed after_parse
parsed-Keeps none s = (refl, refl, refl)
parsed-Keeps (some e) s =
    let s' = after_parse (some e) s in
    elim (Option-cases (upsert_event e none s').0) [
      | inl missing ↦ rw (missing, upsert_parsed) (upsert_event-Keeps e s')
      | inr (row, found) ↦ rw (found, upsert_parsed) (upsert_event-Keeps e s')
    ]

module _ (cfg : Settings) (backend : Backend) (input : Input) where
  take_message-Keeps :
      (source : String) (payload : Json) (message : TelegramMessage) (correlation_id : String)
      (s : Session)
      → Keeps (take_message cfg backend input source payload message correlation_id s).1 s
  unfolding take_message
  take_message-Keeps source payload message correlation_id s =
      let (i, s') = save_raw_payload cfg backend source payload correlation_id s in
      let frame = save_raw_payload_frame cfg backend source payload correlation_id s in
      let kept = parsed-Keeps (parse_message_to_event (s'.world.clock 0) message (some i)) s' in
      (
        kept.0 ∙ frame.0,
        kept.1 ∙ ap (λ (d : Store). d.deliveries) frame.1,
        kept.2 ∙ ap (λ (d : Store). d.sync_logs) frame.1,
      )

  webhook_block-IsBlock :
      (body : Json) (correlation_id : String)
      → IsBlock (webhook_block cfg backend input body correlation_id)
  unfolding webhook_block
  webhook_block-IsBlock body correlation_id s = elim (Outcome-cases (input.validate body)) [
    | inr (e, bad) ↦ rw (bad, webhook_block) (refl, refl, refl)
    | inl (u, good) ↦ elim (Option-cases u.message) [
      | inl missing ↦ rw (good, missing, webhook_block) (refl, refl, refl)
      | inr (m, found) ↦
          rw (good, found, webhook_block)
            (take_message-Keeps "telegram_webhook" body m correlation_id s)
    ]
  ]

  passed_failed :
      (secret : String) (token : Option String) (body : Json) (correlation_id : String)
      (s : Session) {e : String}
      → check_secret secret token ≡ none
      → s.db ≡ s.committed
      → (telegram_webhook cfg backend input secret token body correlation_id s).0 ≡ raised e
      → let s' = (telegram_webhook cfg backend input secret token body correlation_id s).1 in
        (s'.committed ≡ s.committed) × (s'.db ≡ s.committed)
  unfolding telegram_webhook
  passed_failed secret token Json.null correlation_id s passed fresh h =
      rw (passed, telegram_webhook) (refl, refl)
  passed_failed secret token (Json.bool b) correlation_id s passed fresh h =
      rw (passed, telegram_webhook) (refl, refl)
  passed_failed secret token (Json.num n) correlation_id s passed fresh h =
      rw (passed, telegram_webhook) (refl, refl)
  passed_failed secret token (Json.str t) correlation_id s passed fresh h =
      rw (passed, telegram_webhook) (refl, refl)
  passed_failed secret token (Json.arr js) correlation_id s passed fresh h =
      rw (passed, telegram_webhook) (refl, refl)
  passed_failed secret token (Json.other t) correlation_id s passed fresh h =
      rw (passed, telegram_webhook) (refl, refl)
  passed_failed secret token (Json.obj fields) correlation_id s {e} passed fresh h =
      rw (passed, telegram_webhook)
        (receive-raised "telegram" (delivery_of input.repr fields) "telegram_webhook" correlation_id
          (webhook_block cfg backend input (Json.obj fields) correlation_id) s {e = e}
          (webhook_block-IsBlock (Json.obj fields) correlation_id)
          (rw (passed, telegram_webhook) at h))

  -- A delivery that raises, for its token, its body or its processing, in a fresh session commits
  -- nothing and leaves nothing in the session; its row of `webhook_deliveries` is not left either, so
  -- that the sender can deliver it again.
  pub telegram_webhook_failed :
      (secret : String) (token : Option String) (body : Json) (correlation_id : String)
      (s : Session) {e : String}
      → s.db ≡ s.committed
      → (telegram_webhook cfg backend input secret token body correlation_id s).0 ≡ raised e
      → let s' = (telegram_webhook cfg backend input secret token body correlation_id s).1 in
        (s'.committed ≡ s.committed) × (s'.db ≡ s.committed)
  unfolding telegram_webhook
  telegram_webhook_failed secret token body correlation_id s {e} fresh h =
      elim (Option-cases (check_secret secret token)) [
        | inr (detail, refused) ↦ rw (refused, telegram_webhook) (refl, refl)
        | inl passed ↦ passed_failed secret token body correlation_id s {e = e} passed fresh h
      ]

  abbrev received : Fields → String → Session → Outcome Reply × Session
  received fields correlation_id s =
      receive "telegram" (delivery_of input.repr fields) "telegram_webhook" correlation_id
        (webhook_block cfg backend input (Json.obj fields) correlation_id) s

  telegram_webhook-passed :
      (secret : String) (token : Option String) (fields : Fields) (correlation_id : String)
      (s : Session)
      → check_secret secret token ≡ none
      → telegram_webhook cfg backend input secret token (Json.obj fields) correlation_id s
        ≡ received fields correlation_id s
  unfolding telegram_webhook
  telegram_webhook-passed secret token fields correlation_id s passed =
      rw (passed, telegram_webhook) refl

  webhook_passed :
      (secret : String) (token : Option String) (fields : Fields) (correlation_id : String)
      (s : Session) {r : Reply}
      → (telegram_webhook cfg backend input secret token (Json.obj fields) correlation_id s).0
        ≡ ok r
      → check_secret secret token ≡ none
  unfolding telegram_webhook
  webhook_passed secret token fields correlation_id s {r} h =
      elim (Option-cases (check_secret secret token)) [
        | inr (detail, refused) ↦ absurd (cc (rw (refused, telegram_webhook) at h))
        | inl passed ↦ passed
      ]

  -- An update with an id that was answered once, in a fresh session: the same delivery again is a
  -- duplicate and changes nothing.
  pub telegram_webhook_again :
      (secret : String) (token : Option String) (fields : Fields) (correlation_id again : String)
      (s : Session) {r : Reply}
      → str_eq (delivery_of input.repr fields) "" ≡ false
      → s.db ≡ s.committed
      → (telegram_webhook cfg backend input secret token (Json.obj fields) correlation_id s).0
        ≡ ok r
      → let s' =
          (telegram_webhook cfg backend input secret token (Json.obj fields) correlation_id s).1 in
        telegram_webhook cfg backend input secret token (Json.obj fields) again s'
        ≡ (ok duplicate, s')
  telegram_webhook_again secret token fields correlation_id again s {r} given fresh h =
      let passed = webhook_passed secret token fields correlation_id s {r = r} h in
      let first_time = telegram_webhook-passed secret token fields correlation_id s passed in
      let q : (received fields correlation_id s).0 ≡ ok r =
        ap (λ (t : Outcome Reply × Session). t.0) (sym first_time) ∙ h in
      let known =
        receive-again "telegram" (delivery_of input.repr fields) "telegram_webhook" correlation_id
          again (webhook_block cfg backend input (Json.obj fields) correlation_id)
          (webhook_block cfg backend input (Json.obj fields) again) s {r = r}
          (webhook_block-IsBlock (Json.obj fields) correlation_id) given fresh q in
      subst
        (λ (s' : Session).
          telegram_webhook cfg backend input secret token (Json.obj fields) again s'
          ≡ (ok duplicate, s'))
        (ap (λ (t : Outcome Reply × Session). t.1) (sym first_time))
        (telegram_webhook-passed secret token fields again (received fields correlation_id s).1
            passed
          ∙ known)

-- Two messages with the same number, as two chats have them, upserted one after the other over a table
-- that meets its constraint: they are one event, and its row ends with the contents of the second.
pub chats_share_key :
    (m m' : TelegramMessage) (now now' : Timestamp) (raw raw' : Option Uuid) (s : Session)
    → m.message_id ≡ m'.message_id
    → IsUnique s.db.events
    → let s1 = (upsert_event (message_event now m raw) none s).1 in
      let s2 = (upsert_event (message_event now' m' raw') none s1).1 in
      let k : Key = ("telegram", decimal m.message_id) in
      (i j : Uuid) × (event_of k s1.db.events
        ≡ some (upserted (s.world.clock 0) i (event_of k s.db.events) (message_event now m raw)))
      × (event_of k s2.db.events
          ≡ some (
              upserted (s1.world.clock 0) j (event_of k s1.db.events) (message_event now' m' raw')))
unfolding upsert_event message_event
chats_share_key m m' now now' raw raw' s same u =
    let e = message_event now m raw in
    let e' = message_event now' m' raw' in
    let k : Key = ("telegram", decimal m.message_id) in
    let s1 = (upsert_events_bulk (e ∷ []) none s).1 in
    let here = upsert_events_bulk-event_of_input (e ∷ []) none s u k e (single e k refl) in
    let there =
      upsert_events_bulk-event_of_input (e' ∷ []) none s1
        (upsert_events_bulk_others (e ∷ []) none s u).0 k e'
        (single e' k (ap (λ n. ("telegram", decimal n)) (sym same))) in
    (here.0, there.0, here.1, there.1)
  where
    single : (d : NormalizedEventCreate) (k : Key) → key_of d ≡ k → input_of k (d ∷ []) ≡ some d
    single d k h = subst (λ j. input_of j (d ∷ []) ≡ some d) h (rw (same_key_refl (key_of d)) refl)
