-- ===== src/Imap/Tests.antt =====
-- Concrete runs of the mailbox.
use omnisync.Base.{◌+◌, ◌≡◌, refl, true, false, ◌==◌, none, some, [], ◌∷◌, any}
use omnisync.Base.Json.{Json}
use omnisync.Base.Outcome.{ok, raised}
use omnisync.Config.{default_settings}
use omnisync.Session.{Session, Store}
use omnisync.RawPayloads.{Backend}
use omnisync.Dlq.Record.{is_active_for}
use omnisync.Integrations.Unary.{texts}
use omnisync.Imap.Message.{Mail}
use omnisync.Imap.Connection.{Server, ImapClient, newest_ids, fetch_messages}
use omnisync.Imap.Kept.{IsLeft, fetch_messages-IsLeft}
use omnisync.Imap.Poll.{ImapSettings, check_settings, sync_imap_messages}
use omnisync.Imap.Polled.{IsLogLeft, sync_imap_messages_failed}

abbrev no_rows : Store
no_rows = record {
  events = [];
  versions = [];
  outbox = [];
  raw_payloads = [];
  failed_events = [];
  sync_states = [];
  sync_logs = [];
  deliveries = [];
  users = [];
}

abbrev session : Session
session = record {
  committed = no_rows;
  db = no_rows;
  world = record { uuids = λ n. n + 100; clock = λ n. n + 1000 };
}

abbrev backend : Backend
backend = record {
  canonical_hash = λ _. "hash";
  encoded_size = λ _. 10;
  save_object = λ _ _ _ _. none;
  get_object = λ _. none;
}

abbrev mail : Mail
mail = record {
  subject = "Hello";
  sender = "ann@example.org";
  message_id = "";
  date = some 5;
  is_multipart = false;
  payload = some "text";
  parts = [];
}

-- The first connection is gone, the second one answers.
abbrev server : Server
server = record {
  host = "mail";
  connect = λ _. none;
  noop = λ k. elim (k == 0) [ true ↦ raised "gone" | false ↦ ok "OK" ];
  select = λ _ _. none;
  uidvalidity = λ _. some "9";
  search = λ _ _. ok ("OK", "1" ∷ "2" ∷ []);
  fetch = λ _ _. ok ("OK", some mail);
  is_network = λ _. true;
  day = λ _. "01-Jan-2026";
}

abbrev client : ImapClient
client = record { conn = some 0; made = 1 }

newest : newest_ids 2 ("1" ∷ "2" ∷ "3" ∷ []) ≡ "2" ∷ "3" ∷ []
unfolding newest_ids
newest = refl

fetch_messages-IsLeft_example :
    let (outcome, client') = fetch_messages server "INBOX" none 100 session.world client in
    IsLeft server client outcome client'
fetch_messages-IsLeft_example = fetch_messages-IsLeft server "INBOX" none 100 session.world client

abbrev no_password : ImapSettings
no_password = record { host = "mail"; username = "ann"; password = "" }

sync_imap_messages_failed_example :
    let after =
      (sync_imap_messages default_settings backend texts
        (λ _. Json.null)
        no_password
        (λ _. raised "gone")
        "c1"
        session).1.committed in
    (after ≡ record no_rows { sync_logs = after.sync_logs; failed_events = after.failed_events })
    × (any (is_active_for "imap" "src.imap.tasks.sync_imap_messages") after.failed_events ≡ true)
    × IsLogLeft default_settings backend texts
        (λ _. Json.null)
        "c1"
        no_password
        (λ _. raised "gone")
        (check_settings no_password)
        100
        no_rows
        after
unfolding sync_imap_messages
sync_imap_messages_failed_example =
    sync_imap_messages_failed default_settings backend texts (λ _. Json.null) "c1" no_password
      (λ _. raised "gone") session {e = "IMAP username and password must be configured"} refl refl
