-- ===== src/Github/Normalize.antt =====
-- `parse_commit_to_event` and `parse_pr_to_event` of src/github/utils.py, with the items of
-- src/github/schemas.py. `datetime.fromisoformat` is the one of the texts of timestamps.
pub mod Commits
use Prim.Native.Nat.{◌/◌, ◌%◌}
use Prim.Native.String
use Prim.Native.Char.{code}
use omnisync.Base.{
  ℕ, zero, suc, ltb, ◌+◌, Bool, true, false, String, Option, none, some, List, [], ◌∷◌, ◌==◌,
  str_eq, or_else, if◌then◌else◌, Uuid, Timestamp, World, tick,
}
pub use omnisync.Base.{join}
use omnisync.Base.Json.{Json}
use omnisync.Events.Model.{NormalizedEventCreate, content_schema_version}
use omnisync.Integrations.{TimeText}

pub record GitHubCommitAuthor : Type 0 where
  pub name : Option String
  pub email : Option String
  pub date : Option String

pub record GitHubCommit : Type 0 where
  pub id : String
  pub message : String
  pub author : Option GitHubCommitAuthor
  pub url : Option String

pub record GitHubCommitData : Type 0 where
  pub sha : String
  pub commit : GitHubCommit
  pub html_url : Option String
  pub author : Option Json

pub record GitHubPrUser : Type 0 where
  pub login : String
  pub id : ℕ
  pub html_url : Option String

pub record GitHubPrData : Type 0 where
  pub id : ℕ
  pub number : ℕ
  pub title : String
  pub body : Option String
  pub state : String
  pub user : Option GitHubPrUser
  pub html_url : Option String
  pub created_at : Option String
  pub updated_at : Option String
  pub merged_at : Option String

-- `.replace("Z", "+00:00")`
unfoldable pub replace_z : String → String
replace_z String.[] = ""
replace_z (String.◌∷◌ c s) =
    let rest = replace_z s in if code c == b'Z' then join "+00:00" rest else String.◌∷◌ c rest

unfoldable pub digit : ℕ → String
digit n =
    if n == 0
    then "0"
    else if n == 1
    then "1"
    else if n == 2
    then "2"
    else if n == 3
    then "3"
    else if n == 4
    then "4"
    else if n == 5
    then "5"
    else if n == 6
    then "6"
    else if n == 7
    then "7"
    else if n == 8
    then "8"
    else "9"

-- `str` of a number; a tenth of a number has fewer digits, so its successor is enough fuel.
unfoldable pub digits : ℕ → ℕ → String
unfolding digit
digits zero n = ""
digits (suc fuel) n =
    let rest = digits fuel (n / 10) in if ltb n 10 then digit n else join rest (digit (n % 10))

unfoldable pub decimal : ℕ → String
unfolding digits
decimal n = digits (suc n) n

module _ (texts : TimeText) where
  open texts use {fromisoformat}

  -- The time of the call stays where the date is missing, empty or no date.
  unfoldable pub time_or_now : Timestamp → Option String → Timestamp
  unfolding replace_z
  time_or_now now none = now
  time_or_now now (some date) =
      if str_eq date "" then now else or_else (fromisoformat (replace_z date)) now

  -- `commit.commit.author.name or ""` and the like, where there is an author.
  field_or_empty : (GitHubCommitAuthor → Option String) → Option GitHubCommitAuthor → String
  field_or_empty field none = ""
  field_or_empty field (some a) = or_else (field a) ""

  date_of : Option GitHubCommitAuthor → Option String
  date_of none = none
  date_of (some a) = a.date

  unfoldable pub parse_commit_to_event :
      Timestamp → GitHubCommitData → Option Uuid → NormalizedEventCreate
  unfolding time_or_now field_or_empty date_of
  parse_commit_to_event now commit raw_payload_id = record {
    external_id = commit.sha;
    source = "github";
    author_id = field_or_empty (λ a. a.email) commit.commit.author;
    author_name = field_or_empty (λ a. a.name) commit.commit.author;
    content = commit.commit.message;
    event_type = "commit";
    timestamp = time_or_now now (date_of commit.commit.author);
    raw_payload_id = raw_payload_id;
    schema_version = content_schema_version;
  }

  login_of : Option GitHubPrUser → String
  login_of none = ""
  login_of (some u) = u.login

  unfoldable pub pr_content : GitHubPrData → String
  unfolding decimal
  pr_content pr =
      let title = join "PR #" (join (decimal pr.number) (join ": " pr.title)) in
      elim pr.body [
        | none ↦ title
        | some body ↦ if str_eq body "" then title else join title (join "\n\n" body)
      ]

  unfoldable pub parse_pr_to_event : Timestamp → GitHubPrData → Option Uuid → NormalizedEventCreate
  unfolding time_or_now login_of pr_content decimal
  parse_pr_to_event now pr raw_payload_id = record {
    external_id = decimal pr.id;
    source = "github";
    author_id = login_of pr.user;
    author_name = login_of pr.user;
    content = pr_content pr;
    event_type = "pull_request";
    timestamp = time_or_now now pr.created_at;
    raw_payload_id = raw_payload_id;
    schema_version = content_schema_version;
  }

  -- The loops over the commits and over the pull requests, each call with its reading of the clock.
  unfoldable pub parse_commits :
      World → Option Uuid → List GitHubCommitData → List NormalizedEventCreate
  unfolding parse_commit_to_event
  parse_commits w raw_payload_id [] = []
  parse_commits w raw_payload_id (commit ∷ commits) =
      parse_commit_to_event (w.clock 0) commit raw_payload_id
      ∷ parse_commits (tick w) raw_payload_id commits

  unfoldable pub parse_prs : World → Option Uuid → List GitHubPrData → List NormalizedEventCreate
  unfolding parse_pr_to_event
  parse_prs w raw_payload_id [] = []
  parse_prs w raw_payload_id (pr ∷ prs) =
      parse_pr_to_event (w.clock 0) pr raw_payload_id ∷ parse_prs (tick w) raw_payload_id prs
