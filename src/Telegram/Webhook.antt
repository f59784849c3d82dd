-- ===== src/Telegram/Webhook.antt =====
-- `telegram_webhook` and `telegram_sync` of src/telegram/router.py. The validation of an update and the
-- text of a JSON value that is no scalar are parameters.
use omnisync.Base.{
  ℕ, ◌+◌, true, false, String, Option, none, some, List, [], ◌∷◌, length, str_eq, if◌then◌else◌,
  or_else, tick,
}
use omnisync.Base.Json.{Json, Fields, get_or_null, truthy}
use omnisync.Base.Outcome.{Outcome, ok, raised}
use omnisync.Config.{Settings}
use omnisync.Session.{Session, close}
use omnisync.Events.Model.{NormalizedEventCreate}
use omnisync.Events.Upsert.{upsert_event}
use omnisync.RawPayloads.{Backend, save_raw_payload}
use omnisync.SyncLogs.{create_sync_log, settle_run}
use omnisync.Webhooks.Delivery.{Reply, receive}
use omnisync.Github.Normalize.{decimal}
use omnisync.Telegram.Normalize.{TelegramUpdate, TelegramMessage, parse_message_to_event}

pub record Input : Type 0 where
  pub validate : Json → Outcome TelegramUpdate
  pub dump : TelegramUpdate → Json
  -- `str` of a list or of a dict
  pub repr : Json → String

-- The answer of a sync.
pub record SyncReply : Type 0 where
  pub updates : ℕ
  pub events_created : ℕ

-- The text of the refusal, where the token is refused.
unfoldable pub check_secret : String → Option String → Option String
check_secret secret token =
    let given = or_else token "" in
    if str_eq secret ""
    then none
    else if str_eq given ""
    then some "Missing secret token"
    else if str_eq given secret
    then none
    else some "Invalid secret token"

-- `str(x)`
unfoldable pub str_of : (Json → String) → Json → String
unfolding decimal
str_of repr Json.null = "None"
str_of repr (Json.bool true) = "True"
str_of repr (Json.bool false) = "False"
str_of repr (Json.num n) = decimal n
str_of repr (Json.str s) = s
str_of repr (Json.other s) = s
str_of repr x = repr x

-- `str(update_id)` where `update_id` is true; empty where there is no delivery to record.
unfoldable pub delivery_of : (Json → String) → Fields → String
unfolding get_or_null truthy str_of
delivery_of repr body =
    let update_id = get_or_null "update_id" body in
    if truthy update_id then str_of repr update_id else ""

-- An event reads the clock.
unfoldable pub after_parse : Option NormalizedEventCreate → Session → Session
after_parse none s = s
after_parse (some e) s = record s { world = tick s.world }

-- The number of upserted events, 0 or 1.
unfoldable pub upsert_parsed : Option NormalizedEventCreate → Session → Outcome ℕ × Session
unfolding upsert_event
upsert_parsed none s = (ok 0, s)
upsert_parsed (some e) s =
    let (row, s') = upsert_event e none s in
    elim row [ none ↦ (raised "list index out of range", s') | some r ↦ (ok 1, s') ]

module _ (cfg : Settings) (backend : Backend) (input : Input) where
  -- One message: its payload, its event, its upsert.
  unfoldable pub take_message :
      String → Json → TelegramMessage → String → Session → Outcome ℕ × Session
  unfolding save_raw_payload parse_message_to_event after_parse upsert_parsed
  take_message source payload message correlation_id s =
      let (raw_payload_id, s') = save_raw_payload cfg backend source payload correlation_id s in
      let event = parse_message_to_event (s'.world.clock 0) message (some raw_payload_id) in
      upsert_parsed event (after_parse event s')

  -- The `try` block of the webhook up to its commit.
  unfoldable pub webhook_block : Json → String → Session → Outcome ℕ × Session
  unfolding take_message
  webhook_block body correlation_id s = elim (input.validate body) [
    | raised e ↦ (raised e, s)
    | ok u ↦ elim u.message [
      | none ↦ (ok 0, s)
      | some message ↦ take_message "telegram_webhook" body message correlation_id s
    ]
  ]

  -- A body that is no object has no `get`.
  unfoldable pub telegram_webhook :
      String → Option String → Json → String → Session → Outcome Reply × Session
  unfolding check_secret delivery_of receive webhook_block
  telegram_webhook secret token body correlation_id s = elim (check_secret secret token) [
    | some detail ↦ (raised detail, close s)
    | none ↦ elim body [
      | Json.obj fields ↦
          receive "telegram" (delivery_of input.repr fields) "telegram_webhook" correlation_id
            (webhook_block (Json.obj fields) correlation_id) s
      | _ ↦ (raised "AttributeError", close s)
    ]
  ]

  -- The loop over the updates.
  unfoldable pub sync_updates : List TelegramUpdate → String → Session → Outcome ℕ × Session
  unfolding take_message
  sync_updates [] correlation_id s = (ok 0, s)
  sync_updates (u ∷ us) correlation_id s = elim u.message [
    | none ↦ sync_updates us correlation_id s
    | some message ↦
        let (taken, s') = take_message "telegram_poll" (input.dump u) message correlation_id s in
        elim taken [
          | raised e ↦ (raised e, s')
          | ok n ↦
              let (rest, s'') = sync_updates us correlation_id s' in
              elim rest [ raised e ↦ (raised e, s'') | ok m ↦ (ok (n + m), s'') ]
        ]
  ]

  unfoldable pub sync_block :
      Outcome (List TelegramUpdate) → String → Session → Outcome SyncReply × Session
  unfolding sync_updates
  sync_block fetched correlation_id s = elim fetched [
    | raised e ↦ (raised e, s)
    | ok updates ↦
        let (created, s') = sync_updates updates correlation_id s in
        elim created [
          | raised e ↦ (raised e, s')
          | ok n ↦ (ok (record { updates = length updates; events_created = n }), s')
        ]
  ]

  -- The updates are what the client gives, without an offset.
  unfoldable pub telegram_sync :
      Outcome (List TelegramUpdate) → String → Session → Outcome SyncReply × Session
  unfolding create_sync_log sync_block settle_run
  telegram_sync fetched correlation_id s =
      let (log_id, s') = create_sync_log correlation_id "telegram_poll" "started" s in
      settle_run log_id (sync_block fetched correlation_id s')
