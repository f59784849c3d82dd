-- ===== src/Telegram/Tests.antt =====
-- Concrete runs of the Telegram connector.
use omnisync.Base.{◌+◌, ◌≡◌, ℕ, refl, true, String, Option, none, some, List, [], ◌∷◌, Uuid}
use omnisync.Base.Json
use omnisync.Base.Json.{Json, Fields}
use omnisync.Base.Outcome.{Outcome, ok, raised}
use omnisync.Config.{default_settings}
use omnisync.Session.{Session, Store}
use omnisync.Events.Upsert.{Key, upsert_event}
use omnisync.Events.Upsert.Rows.{event_of}
use omnisync.Events.Upsert.Effect.{upserted}
use omnisync.RawPayloads.{Backend}
use omnisync.Tasks.{Attempts}
use omnisync.Tasks.Ends.{HasFailedRun}
use omnisync.Webhooks.Delivery.{duplicate}
use omnisync.Github.Normalize.{decimal}
use omnisync.Telegram.Normalize.{TelegramMessage, TelegramUpdate, message_event}
use omnisync.Telegram.Webhook.{Input, telegram_webhook}
use omnisync.Telegram.Delivered.{telegram_webhook_again, chats_share_key}
use omnisync.Telegram.Poll.{offset_of, sync_telegram_messages}
use omnisync.Telegram.Stored.{IsPolled}
use omnisync.Telegram.Polled.{sync_telegram_messages_failed, sync_telegram_messages_succeeded}

abbrev no_rows : Store
no_rows = record {
  events = [];
  versions = [];
  outbox = [];
  raw_payloads = [];
  failed_events = [];
  sync_states = [];
  sync_logs = [];
  deliveries = [];
  users = [];
}

abbrev session : Session
session = record {
  committed = no_rows;
  db = no_rows;
  world = record { uuids = λ n. n + 100; clock = λ n. n + 1000 };
}

abbrev backend : Backend
backend = record {
  canonical_hash = λ _. "hash";
  encoded_size = λ _. 10;
  save_object = λ _ _ _ _. none;
  get_object = λ _. none;
}

abbrev message_in : String → String → TelegramMessage
message_in chat text = record {
  message_id = 7;
  from_user = none;
  chat = some (record { id = chat; type = none; title = none });
  date = some 3;
  text = some text;
}

abbrev update_of : ℕ → TelegramMessage → TelegramUpdate
update_of n m = record { update_id = n; message = some m }

abbrev updates : List TelegramUpdate
updates = update_of 12 (message_in "-5" "hello") ∷ record { update_id = 11; message = none } ∷ []

abbrev body : Fields
body = Json.field "update_id" (Json.num 12) Json.end

abbrev input : Input
input = record {
  validate = λ j. elim j [
    | Json.obj fields ↦ ok (update_of 12 (message_in "-5" "hello"))
    | _ ↦ raised "invalid"
  ];
  dump = λ _. Json.null;
  repr = λ _. "?";
}

-- The text of a message in a chat without a title.
untitled : (e : String) × (e ≡ (message_event 0 (message_in "-5" "hello") none).content)
unfolding message_event
untitled = ("[chat:-5] hello", refl)

telegram_webhook_again_example :
    let s' =
      (telegram_webhook default_settings backend input "k"
        (some "k")
        (Json.obj body)
        "c1"
        session).1 in
    telegram_webhook default_settings backend input "k" (some "k") (Json.obj body) "c2" s'
    ≡ (ok duplicate, s')
unfolding telegram_webhook
telegram_webhook_again_example =
    telegram_webhook_again default_settings backend input "k" (some "k") body "c1" "c2" session
      {r = _} refl refl refl

chats_share_key_example :
    let e = message_event 0 (message_in "-5" "hello") none in
    let e' = message_event 0 (message_in "-6" "other") none in
    let s1 = (upsert_event e none session).1 in
    let s2 = (upsert_event e' none s1).1 in
    let k : Key = ("telegram", decimal 7) in
    (i j : Uuid) × (event_of k s1.db.events ≡ some (upserted 1000 i none e))
    × (event_of k s2.db.events ≡ some (upserted (s1.world.clock 0) j (event_of k s1.db.events) e'))
chats_share_key_example =
    chats_share_key (message_in "-5" "hello") (message_in "-6" "other") 0 0 none none session refl
      tt

abbrev attempt : Attempts
attempt = record { retries = 0; max_retries = 3 }

-- The task has no retries left.
abbrev last_attempt : Attempts
last_attempt = record { retries = 3; max_retries = 3 }

sync_telegram_messages_failed_example :
    HasFailedRun
      (λ _. true)
      last_attempt
      "lost"
      "telegram"
      "src.telegram.tasks.sync_telegram_messages"
      100
      no_rows
      (sync_telegram_messages default_settings backend
        (λ _. Json.null)
        (λ _. true)
        last_attempt
        (λ _. raised "lost")
        "c1"
        session).1.committed
unfolding sync_telegram_messages
sync_telegram_messages_failed_example =
    sync_telegram_messages_failed default_settings backend (λ _. Json.null) "c1" (λ _. true)
      last_attempt (λ _. raised "lost") session {e = "lost"} refl refl

sync_telegram_messages_succeeded_example :
    (offset : Option ℕ) × (fetched : List TelegramUpdate) × (offset_of none ≡ some offset)
    × (◌≡◌ {A = Outcome (List TelegramUpdate)} (ok updates) (ok fetched))
    × IsPolled default_settings backend
        (λ _. Json.null)
        "c1"
        fetched
        no_rows
        (sync_telegram_messages default_settings backend
          (λ _. Json.null)
          (λ _. true)
          attempt
          (λ _. ok updates)
          "c1"
          session).1.committed
unfolding sync_telegram_messages
sync_telegram_messages_succeeded_example =
    sync_telegram_messages_succeeded default_settings backend (λ _. Json.null) "c1" (λ _. true)
      attempt (λ _. ok updates) session 1 tt tt refl
