-- ===== src/Jira/Search.antt =====
-- `JiraClient.search_issues` of src/jira/service.py. One request, with its retries, is a parameter, and
-- so is the text of a time in JQL.
use omnisync.Base.{
  ℕ, zero, suc, ◌+◌, Bool, true, String, Option, none, some, List, [], ◌∷◌, ◌++◌, length, leb,
  str_eq, ◌==◌, if◌then◌else◌, Timestamp,
}
use omnisync.Base.Json
use omnisync.Base.Json.{Json, Items, Fields, get}
use omnisync.Base.Outcome.{Outcome, ok, raised}
use omnisync.Github.Normalize.{join}

items : Items → List Json
items Json.nil = []
items (Json.cons j js) = j ∷ items js

-- `data.get("issues", [])`. A value that is no list is not what Jira answers.
unfoldable pub batch_of : Fields → Outcome (List Json)
unfolding items get
batch_of data' = elim (get "issues" data') [
  | none ↦ ok []
  | some issues ↦ elim issues [ Json.arr js ↦ ok (items js) | _ ↦ raised "TypeError" ]
]

-- `start_at >= data.get("total", 0)`
unfoldable pub is_last : ℕ → Fields → Outcome Bool
unfolding get
is_last start_at data' = elim (get "total" data') [
  | none ↦ ok true
  | some total ↦ elim total [ Json.num n ↦ ok (leb n start_at) | _ ↦ raised "TypeError" ]
]

-- The `while True` loop, with `issues` as they are so far; none is a run that is not at its end.
unfoldable pub search_pages :
    (ℕ → Outcome Fields) → ℕ → ℕ → List Json → Option (Outcome (List Json))
unfolding batch_of is_last
search_pages search zero start_at issues = none
search_pages search (suc fuel) start_at issues = elim (search start_at) [
  | raised e ↦ some (raised e)
  | ok data' ↦ elim (batch_of data') [
    | raised e ↦ some (raised e)
    | ok [] ↦ some (ok issues)
    | ok (issue ∷ batch) ↦
        let next = start_at + length (issue ∷ batch) in
        let found = issues ++ issue ∷ batch in
        let rest = search_pages search fuel next found in
        elim (is_last next data') [
          | raised e ↦ some (raised e)
          | ok stop ↦ if stop then some (ok found) else rest
        ]
  ]
]

-- `f'project = "{project}"'` and `f'updated >= "{…}"'`
quoted : String → String → String
quoted clause text = join clause (join "\"" (join text "\""))

unfoldable pub clauses : (Timestamp → String) → String → Option Timestamp → List String
unfolding quoted
clauses strftime project since =
    (if str_eq project "" then [] else quoted "project = " project ∷ [])
    ++ (elim since [ none ↦ [] | some t ↦ quoted "updated >= " (strftime t) ∷ [] ])

join_and : String → List String → String
join_and clause [] = clause
join_and clause (next ∷ rest) = join clause (join " AND " (join_and next rest))

unfoldable pub jql : (Timestamp → String) → String → Option Timestamp → String
unfolding clauses join_and
jql strftime project since = elim (clauses strftime project since) [
  | [] ↦ "ORDER BY updated ASC"
  | clause ∷ rest ↦ join (join_and clause rest) " ORDER BY updated ASC"
]

unfoldable pub search_issues :
    (String → ℕ → Outcome Fields)
    → (Timestamp → String)
    → ℕ
    → String
    → Option Timestamp
    → Option (Outcome (List Json))
unfolding search_pages jql
search_issues search strftime fuel project since =
    search_pages (search (jql strftime project since)) fuel 0 []

-- The status of a response: 429 and the errors are exceptions.
pub record Response : Type 0 where
  pub status_code : ℕ
  pub error : String
  pub body : Outcome Fields

unfoldable pub read_response : Response → Outcome Fields
read_response r =
    if r.status_code == 429
    then raised "Jira rate limit (HTTP 429)"
    else if leb 400 r.status_code
    then raised r.error
    else r.body
