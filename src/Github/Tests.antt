-- ===== src/Github/Tests.antt =====
-- Concrete runs of the normalisation.
use omnisync.Base.{
  Option, ◌+◌, ◌≡◌, refl, true, false, String, none, some, List, [], ◌∷◌, Uuid, Timestamp, World,
  first, str_eq, map,
}
use omnisync.Base.Json
use omnisync.Base.Json.{Json, Fields}
use omnisync.Base.Outcome.{ok, raised}
use omnisync.Config.{default_settings}
use omnisync.Session.{Session, Store}
use omnisync.Events.Model.{NormalizedEvent}
use omnisync.Events.Upsert.Rows.{event_of}
use omnisync.Events.Upsert.Effect.{upserted}
use omnisync.RawPayloads.{Backend}
use omnisync.Integrations.Unary.{texts}
use omnisync.Tasks.{Attempts}
use omnisync.Webhooks.Delivery.{duplicate}
use omnisync.Github.Normalize.{GitHubCommitData, parse_commit_to_event, decimal, join}
use omnisync.Github.Client.{Api, endpoint, updated_of, get_commits, get_pull_requests, validate_all}
use omnisync.Github.Trim.{get_pull_requests-recent}
use omnisync.Github.Webhook.{Body, GitHubWebhookPayload, github_webhook}
use omnisync.Github.Delivered.{
  IsAccepted, github_webhook_failed, github_webhook_authentic, github_webhook_again,
  github_webhook-IsAccepted,
}
use omnisync.Github.Poll.{sync_github_commits}
use omnisync.Events.Query.Watermark.{is_of, IsNewest}
use omnisync.Github.Polled.{since_text, sync_github_commits_succeeded}

abbrev commit_with : String → GitHubCommitData
commit_with message = record {
  sha = "abc";
  commit = record { id = "abc"; message = message; author = none; url = none };
  html_url = none;
  author = none;
}

abbrev commits : List GitHubCommitData
commits = commit_with "first" ∷ commit_with "second" ∷ []

abbrev no_rows : Store
no_rows = record {
  events = [];
  versions = [];
  outbox = [];
  raw_payloads = [];
  failed_events = [];
  sync_states = [];
  sync_logs = [];
  deliveries = [];
  users = [];
}

abbrev draws : World
draws = record { uuids = λ n. n + 100; clock = λ n. n + 1000 }

abbrev session : Session
session = record { committed = no_rows; db = no_rows; world = draws }

pr_number : decimal 1207 ≡ "1207"
unfolding decimal
pr_number = refl

abbrev backend : Backend
backend = record {
  canonical_hash = λ _. "hash";
  encoded_size = λ _. 10;
  save_object = λ _ _ _ _. none;
  get_object = λ _. none;
}

abbrev push : GitHubWebhookPayload
push = record {
  ref = none;
  commits = some commits;
  pull_request = none;
  action = none;
  repository = none;
  sender = none;
}

-- A body is valid if it is the text "push".
abbrev input : Body
input = record {
  mac = λ secret body. join secret body;
  validate = λ body. elim (str_eq body "push") [ true ↦ ok push | false ↦ raised "invalid" ];
  dump = λ _. Json.null;
}

github_webhook-IsAccepted_example :
    (payload : GitHubWebhookPayload) × (input.validate "push" ≡ ok payload)
    × IsAccepted default_settings backend texts input "k" "push"
        (some "sha256=kpush")
        (some "d1")
        "c1"
        payload
        no_rows
        (github_webhook default_settings backend texts input "k" "push"
          (some "sha256=kpush")
          (some "d1")
          "c1"
          session).1.committed
unfolding github_webhook
github_webhook-IsAccepted_example =
    github_webhook-IsAccepted default_settings backend texts input "k" "push" (some "sha256=kpush")
      (some "d1") "c1" session {n = 1} refl tt refl

github_webhook_again_example :
    let s' =
      (github_webhook default_settings backend texts input "k" "push"
        (some "sha256=kpush")
        (some "d1")
        "c1"
        session).1 in
    github_webhook default_settings backend texts input "k" "push"
      (some "sha256=kpush")
      (some "d1")
      "c2"
      s'
    ≡ (ok duplicate, s')
unfolding github_webhook
github_webhook_again_example =
    github_webhook_again default_settings backend texts input "k" "push" (some "sha256=kpush")
      (some "d1") "c1" session "c2" {r = _} refl refl refl

github_webhook_failed_example :
    let s' =
      (github_webhook default_settings backend texts input "k" "pull"
        (some "sha256=kpull")
        (some "d1")
        "c1"
        session).1 in
    (s'.committed ≡ no_rows) × (s'.db ≡ no_rows)
unfolding github_webhook
github_webhook_failed_example =
    github_webhook_failed default_settings backend texts input "k" "pull" (some "sha256=kpull")
      (some "d1") "c1" session {e = "invalid"} refl refl

github_webhook_authentic_example : some "sha256=kpush" ≡ some (join "sha256=" "kpush")
unfolding github_webhook
github_webhook_authentic_example =
    github_webhook_authentic default_settings backend texts input "k" "push" (some "sha256=kpush")
      (some "d1") "c1" session {r = _} (λ h. cc) refl

abbrev pr_at : String → Fields
pr_at t = Json.field "updated_at" (Json.str t) Json.end

abbrev pr_time : Fields → String
pr_time Json.end = ""
pr_time (Json.field name value rest) = elim value [ Json.str t ↦ t | _ ↦ "" ]

abbrev prs : List Fields
prs = pr_at "t3" ∷ pr_at "t2" ∷ pr_at "t1" ∷ []

abbrev api : Api
api = record {
  request = λ path _. elim (str_eq path "/repos/o/r/commits") [
    | true ↦ ok (Json.str "first" ∷ Json.str "second" ∷ [])
    | false ↦ ok (map Json.obj prs)
  ];
  validate_commit = λ j. elim j [ Json.str t ↦ ok (commit_with t) | _ ↦ raised "invalid" ];
  validate_pr = λ _. raised "invalid";
}

abbrev last_retry : Attempts
last_retry = record { retries = 3; max_retries = 3 }

-- A session in which a commit is stored already.
abbrev stored_commit : NormalizedEvent
stored_commit = record {
  id = 7;
  external_id = "old";
  source = "github";
  author_id = "u1";
  author_name = "Ann";
  content = "first";
  event_type = "commit";
  timestamp = 3;
  raw_payload_id = none;
  created_at = 60;
  updated_at = 60;
  version = 1;
  schema_version = 1;
}

abbrev one_commit : Session
one_commit = record session { db = record no_rows { events = stored_commit ∷ [] } }

sync_github_commits_succeeded_example :
    (newest : Option Timestamp) × IsNewest (is_of "github" "commit") (stored_commit ∷ []) newest
    × (found : List GitHubCommitData) × (get_commits api "o" "r"
          (since_text default_settings backend texts newest)
        ≡ ok found)
    × ((sha : String) (c : GitHubCommitData)
        → first (λ x. str_eq x.sha sha) found ≡ some c
        → (t now : Timestamp) × (raw i : Uuid) × (event_of
              ("github", sha)
              (sync_github_commits default_settings backend texts
                (λ _. true)
                last_retry
                api
                "o"
                "r"
                "c1"
                one_commit).1.committed.events
            ≡ some (
                upserted now i
                  (event_of ("github", sha) (stored_commit ∷ []))
                  (parse_commit_to_event texts t c (some raw)))))
unfolding sync_github_commits
sync_github_commits_succeeded_example =
    sync_github_commits_succeeded default_settings backend texts (λ _. true) last_retry api "o" "r"
      "c1" one_commit 1 (refl, tt) refl

get_pull_requests-recent_example :
    get_pull_requests api "o" "r" "all" (some "t2")
    ≡ validate_all api.validate_pr (map Json.obj (pr_at "t3" ∷ pr_at "t2" ∷ []))
unfolding endpoint updated_of
get_pull_requests-recent_example =
    get_pull_requests-recent pr_time api "o" "r" "all" "t2" prs (λ h. cc) refl
      ((refl, λ h. cc), ((refl, λ h. cc), ((refl, λ h. cc), tt)))
      ((refl, (refl, tt)), ((refl, tt), (tt, tt)))
