-- ===== src/Github/Client.antt =====
-- `GitHubClient` of src/github/service.py: what it makes of a response, and the two lists. The HTTP
-- library, with the retries around a request, and the validation of an item are parameters.
use omnisync.Base.{
  ℕ, ◌-◌, max, Bool, false, String, Option, none, some, List, [], ◌∷◌, ◌++◌, map, ltb, leb, str_eq,
  ◌==◌, if◌then◌else◌, or_else, text_lt, Timestamp,
}
use omnisync.Base.Json.{Json, Fields, truthy, get_or_null, or_value}
use omnisync.Base.Outcome.{Outcome, ok, raised}
use omnisync.Github.Normalize.{GitHubCommitData, GitHubPrData, join}

pub record Response : Type 0 where
  pub status_code : ℕ
  pub remaining : Option ℕ
  pub reset : Option ℕ
  pub text : String
  pub body : Outcome (List Json)

abbrev rate_limit_buffer : ℕ
rate_limit_buffer = 10

-- The seconds that a low rate limit makes the client sleep at a time in seconds, 0 for none. A
-- reset in the past sleeps for a second.
unfoldable pub sleep_seconds : Response → ℕ → ℕ
sleep_seconds r now = elim r.remaining [
  | none ↦ 0
  | some n ↦ if ltb n rate_limit_buffer then max (or_else r.reset 0 - now) 1 else 0
]

-- One attempt of `_request`, after the sleep.
unfoldable pub read_response : (ℕ → String → String) → Response → Outcome (List Json)
read_response http_error r =
    if r.status_code == 403
    then raised "GitHub rate limit exceeded"
    else if leb 400 r.status_code
    then raised (http_error r.status_code r.text)
    else r.body

-- `pr.get("updated_at") or pr.get("created_at")`
unfoldable pub updated_of : Fields → Json
unfolding get_or_null or_value
updated_of pr = or_value (get_or_null "updated_at" pr) (get_or_null "created_at" pr)

-- `updated and updated < since`
unfoldable pub is_older : String → Json → Outcome Bool
unfolding updated_of truthy
is_older since (Json.obj pr) =
    let updated = updated_of pr in
    if truthy updated
    then elim updated [ Json.str t ↦ ok (text_lt t since) | _ ↦ raised "TypeError" ]
    else ok false
is_older since _ = raised "AttributeError"

-- The pull requests up to the first that is older.
unfoldable pub trim : String → List Json → Outcome (List Json)
unfolding is_older
trim since [] = ok []
trim since (pr ∷ prs) =
    let rest = trim since prs in
    elim (is_older since pr) [
      | raised e ↦ raised e
      | ok older ↦
          if older
          then ok []
          else elim rest [ raised e ↦ raised e | ok trimmed ↦ ok (pr ∷ trimmed) ]
    ]

-- `[Model.model_validate(x) for x in data]`
unfoldable pub validate_all {ℓ} : {A : Type ℓ} → (Json → Outcome A) → List Json → Outcome (List A)
validate_all validate [] = ok []
validate_all validate (x ∷ xs) =
    let rest = validate_all validate xs in
    elim (validate x) [
      | raised e ↦ raised e
      | ok a ↦ elim rest [ raised e ↦ raised e | ok rest' ↦ ok (a ∷ rest') ]
    ]

abbrev pub Params : Type 0
Params = List (String × String)

-- A request with its attempts, from the endpoint and the parameters.
pub record Api : Type 0 where
  pub request : String → Params → Outcome (List Json)
  pub validate_commit : Json → Outcome GitHubCommitData
  pub validate_pr : Json → Outcome GitHubPrData

unfoldable pub endpoint : String → String → String → String
endpoint owner repo name = join "/repos/" (join owner (join "/" (join repo (join "/" name))))

-- An empty `since` is false.
unfoldable pub since_text : Option String → String
since_text since = or_else since ""

unfoldable pub get_commits : Api → String → String → Option String → Outcome (List GitHubCommitData)
unfolding validate_all endpoint since_text
get_commits api owner repo since =
    let params = ("per_page", "100") ∷ [] in
    let t = since_text since in
    elim (api.request (endpoint owner repo "commits")
      (if str_eq t "" then params else params ++ ("since", t) ∷ [])) [
        | raised e ↦ raised e
        | ok items ↦ validate_all api.validate_commit items
      ]

unfoldable pub get_pull_requests :
    Api → String → String → String → Option String → Outcome (List GitHubPrData)
unfolding validate_all endpoint since_text trim
get_pull_requests api owner repo state since =
    let t = since_text since in
    let params =
      ("state", state) ∷ ("per_page", "100") ∷ ("sort", "updated") ∷ ("direction", "desc") ∷ [] in
    elim (api.request (endpoint owner repo "pulls") params) [
      | raised e ↦ raised e
      | ok items ↦ elim (if str_eq t "" then ok items else trim t items) [
        | raised e ↦ raised e
        | ok trimmed ↦ validate_all api.validate_pr trimmed
      ]
    ]

-- The items of `GitHubConnector.fetch`.
pub data Item : Type 0 where
  commit_item : GitHubCommitData → Item
  pr_item : GitHubPrData → Item

unfoldable pub fetch :
    Api → (Timestamp → String) → String → String → Option Timestamp → Outcome (List Item)
unfolding get_commits get_pull_requests
fetch api isoformat owner repo since =
    let since_iso : Option String = elim since [ none ↦ none | some t ↦ some (isoformat t) ] in
    elim (get_commits api owner repo since_iso) [
      | raised e ↦ raised e
      | ok commits ↦ elim (get_pull_requests api owner repo "all" since_iso) [
        | raised e ↦ raised e
        | ok prs ↦ ok (map commit_item commits ++ map pr_item prs)
      ]
    ]
