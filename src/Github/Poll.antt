-- ===== src/Github/Poll.antt =====
-- src/github/tasks.py: the two tasks that poll a repository from the newest stored event on.
use omnisync.Base.{
  ℕ, Bool, ◌||◌, String, Option, none, some, List, [], ◌∷◌, length, str_eq, if◌then◌else◌, Uuid,
  World,
}
use omnisync.Base.Outcome.{Outcome, ok, raised}
use omnisync.Config.{Settings}
use omnisync.Session.{Session}
use omnisync.Events.Model.{NormalizedEventCreate}
use omnisync.Events.Query.{get_watermark}
use omnisync.Events.Upsert.{upsert_events_bulk}
use omnisync.RawPayloads.{Backend}
use omnisync.Tasks.{Attempts, run_task, logged}
use omnisync.Integrations.{TimeText}
use omnisync.Github.Normalize.{parse_commits, parse_prs}
use omnisync.Github.Client.{Api, get_commits, get_pull_requests}
use omnisync.Github.Webhook.{parse_page}

module _ (cfg : Settings) (backend : Backend) (texts : TimeText) where
  -- From the fetched items to the upsert; `session.commit()` is the first step of the end.
  unfoldable pub poll_block {ℓ} :
      {A : Type ℓ}
      → (World → Option Uuid → List A → List NormalizedEventCreate)
      → String
      → String
      → Outcome (List A)
      → Session
      → Outcome (Option ℕ) × Session
  unfolding parse_page upsert_events_bulk
  poll_block parse kind correlation_id (raised e) s = (raised e, s)
  poll_block parse kind correlation_id (ok []) s = (ok (some 0), s)
  poll_block parse kind correlation_id (ok (x ∷ xs)) s =
      let (events, s') = parse_page cfg backend texts parse kind correlation_id (x ∷ xs) s in
      let (results, s'') = upsert_events_bulk events (some correlation_id) s' in
      (ok (some (length results)), s'')

  unfoldable pub since_watermark : String → Session → Option String
  unfolding get_watermark
  since_watermark event_type s = elim (get_watermark "github" (some event_type) s.db) [
    | none ↦ none
    | some t ↦ some (texts.isoformat t)
  ]

  -- `_sync_github_commits`, with the owner and the repository of the environment. The outcome none
  -- is the skip.
  unfoldable pub commits_block :
      Api → String → String → String → Session → Outcome (Option ℕ) × Session
  unfolding poll_block since_watermark get_commits parse_commits
  commits_block api owner repo correlation_id s =
      poll_block (parse_commits texts) "commits" correlation_id
        (get_commits api owner repo (since_watermark "commit" s)) s

  unfoldable pub poll_commits :
      Api → String → String → String → Session → Outcome (Option ℕ) × Session
  unfolding logged commits_block
  poll_commits api owner repo correlation_id s =
      if str_eq owner "" || str_eq repo ""
      then (ok none, s)
      else logged correlation_id "github_poll_commits" (commits_block api owner repo correlation_id)
          s

  unfoldable pub prs_block : Api → String → String → String → Session → Outcome (Option ℕ) × Session
  unfolding poll_block since_watermark get_pull_requests parse_prs
  prs_block api owner repo correlation_id s =
      poll_block (parse_prs texts) "pull_requests" correlation_id
        (get_pull_requests api owner repo "all" (since_watermark "pull_request" s)) s

  unfoldable pub poll_pull_requests :
      Api → String → String → String → Session → Outcome (Option ℕ) × Session
  unfolding logged prs_block
  poll_pull_requests api owner repo correlation_id s =
      if str_eq owner "" || str_eq repo ""
      then (ok none, s)
      else logged correlation_id "github_poll_prs" (prs_block api owner repo correlation_id) s

  unfoldable pub sync_github_commits :
      (String → Bool)
      → Attempts
      → Api
      → String
      → String
      → String
      → Session
      → Outcome (Option ℕ) × Session
  unfolding run_task poll_commits
  sync_github_commits retryable a api owner repo correlation_id s =
      run_task cfg retryable a "src.github.tasks.sync_github_commits" "github"
        (poll_commits api owner repo correlation_id s)

  unfoldable pub sync_github_pull_requests :
      (String → Bool)
      → Attempts
      → Api
      → String
      → String
      → String
      → Session
      → Outcome (Option ℕ) × Session
  unfolding run_task poll_pull_requests
  sync_github_pull_requests retryable a api owner repo correlation_id s =
      run_task cfg retryable a "src.github.tasks.sync_github_pull_requests" "github"
        (poll_pull_requests api owner repo correlation_id s)
