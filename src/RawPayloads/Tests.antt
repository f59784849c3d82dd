-- ===== src/RawPayloads/Tests.antt =====
-- Concrete runs of the raw payloads.
use omnisync.Base.{◌+◌, ◌≡◌, refl, true, false, some, [], eq_iff}
use omnisync.Base.Json
use omnisync.Base.Json.{Json, coerced}
use omnisync.Config.{default_settings}
use omnisync.Session.{Session, Store}
use omnisync.RawPayloads.Model.{RawPayload}
use omnisync.RawPayloads.{Backend, save_raw_payload, get_raw_payload, load_payload_content}
use omnisync.RawPayloads.ObjectStore.{
  S3Storage, JsonCodec, occurs, object_url, save_object, get_object,
}
use omnisync.RawPayloads.ObjectStore.Kept.{s3_backend, s3_backend-KeepsBody, get_object-save_object}
use omnisync.RawPayloads.Storage.{save_raw_payload_lem}

abbrev no_rows : Store
no_rows = record {
  events = [];
  versions = [];
  outbox = [];
  raw_payloads = [];
  failed_events = [];
  sync_states = [];
  sync_logs = [];
  deliveries = [];
  users = [];
}

abbrev session : Session
session = record {
  committed = no_rows;
  db = no_rows;
  world = record { uuids = λ n. n + 100; clock = λ n. n + 1000 };
}

-- A payload with a datetime, and what JSON keeps of it.
abbrev mail : Json
mail = Json.obj (Json.field "date" (Json.other "2026-01-01") Json.end)

abbrev body : Json
body = Json.obj (Json.field "date" (Json.str "2026-01-01") Json.end)

abbrev minio : S3Storage
minio = record { endpoint_url = "http://minio:9000"; bucket = "raw-payloads" }

-- The JSON texts are the dates.
abbrev texts : JsonCodec
texts = record {
  dumps = λ j. elim j [
    | Json.obj fields ↦ elim fields [
      | Json.end ↦ ""
      | Json.field name value rest ↦ elim value [ Json.str t ↦ t | _ ↦ "" ]
    ]
    | _ ↦ ""
  ];
  loads = λ t. some (Json.obj (Json.field "date" (Json.str t) Json.end));
}

-- Every body is large.
abbrev backend : Backend
backend =
    s3_backend minio texts (λ _. "now") (λ _. "hash") (λ _. 100000) []
      (save_object minio texts true "imap_poll/c1/now.json" body []).1

save_raw_payload_lem_example :
    let (i, s') = save_raw_payload default_settings backend "imap_poll" mail "c1" session in
    ((r : RawPayload) × (get_raw_payload i s'.db ≡ some r)
      × (load_payload_content backend r ≡ some body))
    × (save_raw_payload default_settings backend "imap_poll" mail "c2" s' ≡ (i, s'))
unfolding coerced occurs
save_raw_payload_lem_example =
    save_raw_payload_lem default_settings backend "imap_poll" mail "c1" "c2" session refl tt (
      s3_backend-KeepsBody default_settings minio texts (λ _. "now") (λ _. "hash") (λ _. 100000) []
        "imap_poll" "c1" mail 1000 (λ e. cc) (refl, refl) refl)

get_object-save_object_example :
    let (url, after) = save_object minio texts true "jira_poll/c1/now.json" body [] in
    (url ≡ some (object_url minio "jira_poll/c1/now.json"))
    × (get_object minio texts (object_url minio "jira_poll/c1/now.json") after ≡ some body)
    × (get_object minio texts (object_url minio "imap_poll/c2/now.json") after
        ≡ get_object minio texts (object_url minio "imap_poll/c2/now.json") [])
unfolding occurs
get_object-save_object_example =
    get_object-save_object minio texts "jira_poll/c1/now.json" "imap_poll/c2/now.json" body []
      (λ e.
        let same : false ≡ true = (eq_iff "imap_poll/c2/now.json" "jira_poll/c1/now.json").1 e in
        absurd (cc))
      (refl, refl) (refl, refl) refl

object_url_example :
    object_url minio "jira_poll/c1/now.json"
    ≡ "http://minio:9000/raw-payloads/jira_poll/c1/now.json"
unfolding object_url
object_url_example = refl
