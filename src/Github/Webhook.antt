-- ===== src/Github/Webhook.antt =====
-- `verify_webhook_signature`, `github_webhook` and `github_sync` of src/github/router.py. HMAC and
-- the validation of the payload are parameters, the text of the body is the body.
use omnisync.Base.{
  ℕ, Bool, true, false, String, Option, none, some, List, [], ◌∷◌, ◌++◌, length, str_eq,
  if◌then◌else◌, or_else, Uuid, World, tick,
}
use omnisync.Base.Json
use omnisync.Base.Json.{Json}
use omnisync.Base.Outcome.{Outcome, ok, raised}
use omnisync.Config.{Settings}
use omnisync.Session.{Session, close}
use omnisync.Events.Model.{NormalizedEventCreate}
use omnisync.Events.Upsert.{upsert_events_bulk}
use omnisync.RawPayloads.{Backend, save_raw_payload}
use omnisync.SyncLogs.{create_sync_log, settle_run}
use omnisync.Integrations.{TimeText}
use omnisync.Webhooks.Delivery.{Reply, receive}
use omnisync.Github.Normalize.{GitHubCommitData, GitHubPrData, join, parse_commits, parse_prs}

pub record GitHubWebhookPayload : Type 0 where
  pub ref : Option String
  pub commits : Option (List GitHubCommitData)
  pub pull_request : Option GitHubPrData
  pub action : Option String
  pub repository : Option Json
  pub sender : Option Json

-- What the libraries do with a body.
pub record Body : Type 0 where
  -- `hmac.new(secret, body, sha256).hexdigest()`
  pub mac : String → String → String
  pub validate : String → Outcome GitHubWebhookPayload
  pub dump : GitHubWebhookPayload → Json

-- The answer of a sync.
pub record SyncReply : Type 0 where
  pub commits : ℕ
  pub pull_requests : ℕ
  pub events_created : ℕ

-- A missing signature and an empty one are refused.
unfoldable pub verify_webhook_signature : Body → String → String → Option String → Bool
verify_webhook_signature b secret payload_body signature =
    if str_eq secret "" then true else elim signature [
      | none ↦ false
      | some given ↦
          if str_eq given ""
          then false
          else str_eq (join "sha256=" (b.mac secret payload_body)) given
    ]

-- Each parsed item has read the clock once.
unfoldable pub ticks {ℓ} : {A : Type ℓ} → List A → World → World
ticks [] w = w
ticks (x ∷ xs) w = ticks xs (tick w)

commits_of : GitHubWebhookPayload → List GitHubCommitData
commits_of payload = or_else payload.commits []

pull_requests_of : GitHubWebhookPayload → List GitHubPrData
pull_requests_of payload = elim payload.pull_request [ none ↦ [] | some pr ↦ pr ∷ [] ]

-- A payload in JSON of a page of items.
pub page_payload : String → ℕ → Json
page_payload kind count =
    Json.obj (Json.field "type" (Json.str kind) (Json.field "count" (Json.num count) Json.end))

module _ (cfg : Settings) (backend : Backend) (texts : TimeText) where
  -- `event_data_list` of the webhook.
  unfoldable pub webhook_events : World → Uuid → GitHubWebhookPayload → List NormalizedEventCreate
  unfolding commits_of pull_requests_of ticks parse_commits parse_prs
  webhook_events w raw_payload_id payload =
      parse_commits texts w (some raw_payload_id) (commits_of payload)
      ++ parse_prs texts (ticks (commits_of payload) w) (some raw_payload_id)
          (pull_requests_of payload)

  unfoldable pub upsert_parsed : String → List NormalizedEventCreate → Session → ℕ × Session
  unfolding upsert_events_bulk ticks
  upsert_parsed correlation_id events s =
      let (results, s') =
        upsert_events_bulk events (some correlation_id)
          (record s { world = ticks events s.world }) in
      (length results, s')

  -- The `try` block of the webhook up to its commit.
  unfoldable pub webhook_block : Body → String → String → Session → Outcome ℕ × Session
  unfolding save_raw_payload webhook_events upsert_parsed
  webhook_block b body correlation_id s = elim (b.validate body) [
    | raised e ↦ (raised e, s)
    | ok payload ↦
        let (raw_payload_id, s') =
          save_raw_payload cfg backend "github_webhook" (b.dump payload) correlation_id s in
        let (n, s'') =
          upsert_parsed correlation_id (webhook_events s'.world raw_payload_id payload) s' in
        (ok n, s'')
  ]

  unfoldable pub github_webhook :
      Body
      → String
      → String
      → Option String
      → Option String
      → String
      → Session
      → Outcome Reply × Session
  unfolding verify_webhook_signature receive webhook_block
  github_webhook b secret body signature delivery correlation_id s =
      if verify_webhook_signature b secret body signature
      then receive "github" (or_else delivery "") "github_webhook" correlation_id
          (webhook_block b body correlation_id) s
      else (raised "Invalid webhook signature", close s)

  -- The payload of the commits or of the pull requests, where there are any, and their events.
  unfoldable pub parse_page {ℓ} :
      {A : Type ℓ}
      → (World → Option Uuid → List A → List NormalizedEventCreate)
      → String
      → String
      → List A
      → Session
      → List NormalizedEventCreate × Session
  unfolding save_raw_payload ticks page_payload
  parse_page parse kind correlation_id [] s = ([], s)
  parse_page parse kind correlation_id (x ∷ xs) s =
      let (raw_payload_id, s') =
        save_raw_payload cfg backend "github_poll" (page_payload kind (length (x ∷ xs)))
          correlation_id s in
      (parse s'.world (some raw_payload_id) (x ∷ xs), record s' { world = ticks (x ∷ xs) s'.world })

  unfoldable pub sync_block :
      Outcome (List GitHubCommitData)
      → Outcome (List GitHubPrData)
      → String
      → Session
      → Outcome SyncReply × Session
  unfolding parse_page upsert_events_bulk parse_commits parse_prs
  sync_block fetched_commits fetched_prs correlation_id s = elim fetched_commits [
    | raised e ↦ (raised e, s)
    | ok commits ↦ elim fetched_prs [
      | raised e ↦ (raised e, s)
      | ok prs ↦
          let (commit_events, s1) =
            parse_page (parse_commits texts) "commits" correlation_id commits s in
          let (pr_events, s2) =
            parse_page (parse_prs texts) "pull_requests" correlation_id prs s1 in
          let (results, s3) =
            upsert_events_bulk (commit_events ++ pr_events) (some correlation_id) s2 in
          (
            ok (record {
              commits = length commits;
              pull_requests = length prs;
              events_created = length results;
            }),
            s3,
          )
    ]
  ]

  -- The two lists are what the client gives, without `since`.
  unfoldable pub github_sync :
      Outcome (List GitHubCommitData)
      → Outcome (List GitHubPrData)
      → String
      → Session
      → Outcome SyncReply × Session
  unfolding create_sync_log sync_block settle_run
  github_sync fetched_commits fetched_prs correlation_id s =
      let (log_id, s') = create_sync_log correlation_id "github_poll" "started" s in
      settle_run log_id (sync_block fetched_commits fetched_prs correlation_id s')
