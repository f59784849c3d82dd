-- ===== src/Github/Polled.antt =====
-- What the two polling tasks of src/github/tasks.py leave.
use omnisync.Base.{
  ◌≡◌, refl, sym, ap, subst, ◌∙◌, inl, inr, ℕ, Bool, ◌||◌, String, Option, none, some, Option-cases,
  List, [], ◌∷◌, Bool-cases, str_eq, first, length, Uuid, Timestamp, World,
}
use omnisync.Base.Outcome.{Outcome, ok, raised}
use omnisync.Config.{Settings}
use omnisync.Session.{Session, Store}
use omnisync.SyncLogs.{create_sync_log_own, create_sync_log}
use omnisync.Events.Model.{NormalizedEventCreate}
use omnisync.Events.Query.{get_watermark}
use omnisync.Events.Query.Watermark.{is_of, IsNewest, get_watermark-IsNewest}
use omnisync.Events.Upsert.Rows.{event_of, IsUnique}
use omnisync.Events.Upsert.Effect.{upserted}
use omnisync.Events.Upsert.Frame.{committed-upsert_events_bulk}
use omnisync.RawPayloads.{Backend, save_raw_payload}
use omnisync.Integrations.{TimeText}
use omnisync.Integrations.Frame.{save_raw_payload_frame}
use omnisync.Tasks.{Attempts, is_done, run_task, logged}
use omnisync.Tasks.Ends.{HasLogged, run_task-ok, logged-ok, task_failed}
use omnisync.Github.Normalize.{GitHubCommitData, parse_commit_to_event, parse_commits}
use omnisync.Github.Normalize.Commits.{upsert_commits}
use omnisync.Github.Client.{Api, get_commits}
use omnisync.Github.Webhook.{parse_page, page_payload, ticks}
use omnisync.Github.Poll.{
  poll_block, commits_block, since_watermark, poll_commits, sync_github_commits,
  sync_github_pull_requests,
}

module _ (cfg : Settings) (backend : Backend) (texts : TimeText) where
  poll_block-committed {ℓ} :
      {A : Type ℓ} (parse : World → Option Uuid → List A → List NormalizedEventCreate)
      (kind correlation_id : String) (fetched : Outcome (List A)) (s : Session)
      → (poll_block cfg backend texts parse kind correlation_id fetched s).1.committed ≡ s.committed
  unfolding poll_block parse_page
  poll_block-committed parse kind correlation_id (raised e) s = refl
  poll_block-committed parse kind correlation_id (ok []) s = refl
  poll_block-committed parse kind correlation_id (ok (x ∷ xs)) s =
      let page = parse_page cfg backend texts parse kind correlation_id (x ∷ xs) s in
      committed-upsert_events_bulk page.0 (some correlation_id) page.1
      ∙ (save_raw_payload_frame cfg backend "github_poll" (page_payload kind (length (x ∷ xs)))
          correlation_id s).0

  poll_block-stored :
      (correlation_id : String) (fetched : Outcome (List GitHubCommitData)) (p : Session) {n : ℕ}
      → IsUnique p.db.events
      → (poll_block cfg backend texts (parse_commits texts) "commits" correlation_id fetched p).0
        ≡ ok (some n)
      → (commits : List GitHubCommitData) × (fetched ≡ ok commits)
        × ((sha : String) (c : GitHubCommitData)
            → first (λ x. str_eq x.sha sha) commits ≡ some c
            → (t now : Timestamp) × (raw i : Uuid) × (event_of
                  ("github", sha)
                  (poll_block cfg backend texts
                    (parse_commits texts)
                    "commits"
                    correlation_id
                    fetched
                    p).1.db.events
                ≡ some (
                    upserted now i
                      (event_of ("github", sha) p.db.events)
                      (parse_commit_to_event texts t c (some raw)))))
  unfolding poll_block parse_page
  poll_block-stored correlation_id (raised e) p u h = absurd (cc)
  poll_block-stored correlation_id (ok []) p u h = ([], refl, λ sha c q. absurd (cc))
  poll_block-stored correlation_id (ok (x ∷ xs)) p u h =
      let page = page_payload "commits" (length (x ∷ xs)) in
      let saved = save_raw_payload cfg backend "github_poll" page correlation_id p in
      let same : saved.1.db.events ≡ p.db.events =
        ap (λ (d : Store). d.events)
          (save_raw_payload_frame cfg backend "github_poll" page correlation_id p).1 in
      let ready = record saved.1 { world = ticks (x ∷ xs) saved.1.world } in
      (
        x ∷ xs,
        refl,
        λ sha c q.
            let found =
              upsert_commits texts (some saved.0) saved.1.world (x ∷ xs) (some correlation_id) ready
                sha {c = c} (subst IsUnique (sym same) u) q in
            (
              found.0,
              ready.world.clock 0,
              saved.0,
              found.1,
              found.2
                  ∙ ap
                      (λ rows. some (
                        upserted (ready.world.clock 0) found.1 (event_of ("github", sha) rows)
                          (parse_commit_to_event texts found.0 c (some saved.0))))
                      same,
            ),
      )

  -- The text of a time, where there is one.
  abbrev pub since_text : Option Timestamp → Option String
  since_text none = none
  since_text (some t) = some (texts.isoformat t)

  since_watermark-since_text :
      (s : Session)
      → since_watermark cfg backend texts "commit" s
        ≡ since_text (get_watermark "github" (some "commit") s.db)
  unfolding since_watermark
  since_watermark-since_text s = elim (Option-cases (get_watermark "github" (some "commit") s.db)) [
    | inl empty ↦ rw (empty, since_watermark) refl
    | inr (t, found) ↦ rw (found, since_watermark) refl
  ]

  module _ (retryable : String → Bool) (a : Attempts) (api : Api)
      (owner repo correlation_id : String) where
    abbrev commits_task : Session → Outcome (Option ℕ) × Session
    commits_task s =
        sync_github_commits cfg backend texts retryable a api owner repo correlation_id s

    abbrev prs_task : Session → Outcome (Option ℕ) × Session
    prs_task s =
        sync_github_pull_requests cfg backend texts retryable a api owner repo correlation_id s

    -- A poll of the commits that raises, in a fresh session: the events, their versions, the outbox,
    -- the payloads and the cursors are as before. The log entry says "failed". There is an active
    -- dead letter of the task where its error is not retryable or the retries are used up, and no
    -- new dead letter otherwise.
    pub sync_github_commits_failed :
        (s : Session) {e : String}
        → s.db ≡ s.committed
        → (commits_task s).0 ≡ raised e
        → HasLogged
            (is_done retryable a e)
            "github"
            "src.github.tasks.sync_github_commits"
            (s.world.uuids 0)
            s.committed
            (commits_task s).1.committed
    unfolding sync_github_commits poll_commits run_task
    sync_github_commits_failed s {e} fresh h =
        elim (Bool-cases (str_eq owner "" || str_eq repo "")) [
          | inl skipped ↦ absurd (cc (rw (skipped, run_task) at h))
          | inr polled ↦ rw polled (
              task_failed correlation_id "github_poll_commits"
                (commits_block cfg backend texts api owner repo correlation_id) cfg retryable a
                "src.github.tasks.sync_github_commits" "github" s {e = e} fresh
                (λ p.
                  poll_block-committed (parse_commits texts) "commits" correlation_id
                    (get_commits api owner repo (since_watermark cfg backend texts "commit" p)) p)
                (rw polled at h))
        ]

    -- A poll of the commits that ends with a count: it asked the client for the commits since the
    -- highest time of the stored commit events of GitHub, or for all where there is no such event,
    -- and for each sha the first commit that has it decides the row that is committed under that key.
    pub sync_github_commits_succeeded :
        (s : Session) (n : ℕ)
        → IsUnique s.db.events
        → (commits_task s).0 ≡ ok (some n)
        → (newest : Option Timestamp) × IsNewest (is_of "github" "commit") s.db.events newest
          × (commits : List GitHubCommitData) × (get_commits api owner repo (since_text newest)
              ≡ ok commits)
          × ((sha : String) (c : GitHubCommitData)
              → first (λ x. str_eq x.sha sha) commits ≡ some c
              → (t now : Timestamp) × (raw i : Uuid) × (event_of
                    ("github", sha)
                    (commits_task s).1.committed.events
                  ≡ some (
                      upserted now i
                        (event_of ("github", sha) s.db.events)
                        (parse_commit_to_event texts t c (some raw)))))
    unfolding sync_github_commits poll_commits run_task commits_block since_watermark get_watermark
        create_sync_log_own create_sync_log
    sync_github_commits_succeeded s n u h =
        let name : String = "src.github.tasks.sync_github_commits" in
        elim (Bool-cases (str_eq owner "" || str_eq repo "")) [
          | inl skipped ↦ absurd (cc (rw (skipped, run_task) at h))
          | inr polled ↦
              let block = commits_block cfg backend texts api owner repo correlation_id in
              let run = logged correlation_id "github_poll_commits" block s in
              let opened =
                (create_sync_log_own correlation_id "github_poll_commits" "started" s).1 in
              let polled_run : commits_task s ≡ run_task cfg retryable a name "github" run =
                rw polled refl in
              let q : (run_task cfg retryable a name "github" run).0 ≡ ok (some n) =
                ap (λ (t : Outcome (Option ℕ) × Session). t.0) (sym polled_run) ∙ h in
              let same = run_task-ok cfg retryable a name "github" run {x = some n} q in
              let ended =
                logged-ok correlation_id "github_poll_commits" block s {x = some n}
                  (ap (λ (t : Outcome (Option ℕ) × Session). t.0) (sym same) ∙ q) in
              let stored = poll_block-stored correlation_id _ opened {n = n} u ended.0 in
              (
                get_watermark "github" (some "commit") s.db,
                get_watermark-IsNewest "github" "commit" s.db refl,
                stored.0,
                ap (get_commits api owner repo) (sym (since_watermark-since_text s)) ∙ stored.1,
                λ sha c k.
                    let found = stored.2 sha c k in
                    (
                      found.0,
                      found.1,
                      found.2,
                      found.3,
                      ap
                            (λ (t : Outcome (Option ℕ) × Session).
                              event_of ("github", sha) t.1.committed.events)
                            (polled_run ∙ same)
                          ∙ ap (λ (d : Store). event_of ("github", sha) d.events) ended.1
                          ∙ found.4,
                    ),
              )
        ]
