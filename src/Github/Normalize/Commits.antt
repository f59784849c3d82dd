-- ===== src/Github/Normalize/Commits.antt =====
-- What an upsert of parsed commits stores.
use omnisync.Base.{
  ◌≡◌, ap, inl, inr, String, Option, some, List, [], ◌∷◌, arith, Bool-cases, str_eq, first, Uuid,
  Timestamp, World, tick,
}
use omnisync.Session.{Session}
use omnisync.Events.Upsert.{same_key, upsert_events_bulk}
use omnisync.Events.Upsert.Keys.{input_of}
use omnisync.Events.Upsert.Rows.{event_of, IsUnique}
use omnisync.Events.Upsert.Effect.{upserted, upsert_events_bulk-event_of_input}
use omnisync.Integrations.{TimeText}
use omnisync.Github.Normalize.{GitHubCommitData, parse_commit_to_event, parse_commits}

module _ (texts : TimeText) (raw_payload_id : Option Uuid) where
  input_of-parse_commits :
      (w : World) (commits : List GitHubCommitData) (sha : String) {c : GitHubCommitData}
      → first (λ x. str_eq x.sha sha) commits ≡ some c
      → (now : Timestamp) × (input_of ("github", sha) (parse_commits texts w raw_payload_id commits)
          ≡ some (parse_commit_to_event texts now c raw_payload_id))
  unfolding parse_commits parse_commit_to_event same_key
  input_of-parse_commits w [] sha h = absurd (cc)
  input_of-parse_commits w (x ∷ xs) sha {c} h = elim (Bool-cases (str_eq x.sha sha)) [
    | inl here ↦
        let e : x ≡ c = ground arith in
        (
          w.clock 0,
          rw here (ap (λ y. some (parse_commit_to_event texts (w.clock 0) y raw_payload_id)) e),
        )
    | inr there ↦
        let rest = input_of-parse_commits (tick w) xs sha {c = c} (ground (arith, h, there)) in
        (rest.0, rw there rest.1)
  ]

  -- The commits of a payload are upserted over a table that meets its unique constraint: for each
  -- sha the first commit that has it decides the row of that key, as the upsert of its event does.
  pub upsert_commits :
      (w : World) (commits : List GitHubCommitData) (by : Option String) (s : Session)
      (sha : String) {c : GitHubCommitData}
      → IsUnique s.db.events
      → first (λ x. str_eq x.sha sha) commits ≡ some c
      → (now : Timestamp) × (i : Uuid) × (event_of
            ("github", sha)
            (upsert_events_bulk (parse_commits texts w raw_payload_id commits) by s).1.db.events
          ≡ some (
              upserted
                (s.world.clock 0)
                i
                (event_of ("github", sha) s.db.events)
                (parse_commit_to_event texts now c raw_payload_id)))
  upsert_commits w commits by s sha {c} u h =
      let input = input_of-parse_commits w commits sha {c = c} h in
      let stored =
        upsert_events_bulk-event_of_input (parse_commits texts w raw_payload_id commits) by s u
          ("github", sha) (parse_commit_to_event texts input.0 c raw_payload_id) input.1 in
      (input.0, stored.0, stored.1)
