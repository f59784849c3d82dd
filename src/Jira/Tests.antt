-- ===== src/Jira/Tests.antt =====
-- Concrete runs of the Jira connector.
use omnisync.Base.{
  ◌≡◌, ap, ◌∙◌, arith, ℕ, refl, true, String, none, some, List, [], ◌∷◌, is_some, take, drop,
}
use omnisync.Base.Json
use omnisync.Base.Json.{Json, Items, Fields, get}
use omnisync.Base.Outcome.{Outcome, ok}
use omnisync.Jira.Search.{batch_of, search_issues, jql}
use omnisync.Jira.Pages.{search_issues_end, search_issues_all}
use omnisync.Jira.Normalize.{extract_text}

abbrev issues : List Json
issues = Json.str "J-1" ∷ Json.str "J-2" ∷ Json.str "J-3" ∷ []

abbrev items_of : List Json → Items
items_of [] = Json.nil
items_of (j ∷ js) = Json.cons j (items_of js)

abbrev answer : List Json → Fields
answer batch =
    Json.field "issues" (Json.arr (items_of batch)) (Json.field "total" (Json.num 3) Json.end)

-- Pages of two issues.
abbrev server : String → ℕ → Outcome Fields
server q start = ok (answer (take 2 (drop start issues)))

search_issues_all_example : search_issues server (λ _. "now") 4 "P" none ≡ some (ok issues)
unfolding batch_of jql get
search_issues_all_example =
    search_issues_all server (λ _. "now") "P" none 1 issues (λ start. served (drop start issues))
  where
    served :
        (rest : List Json)
        → (data' : Fields) × (◌≡◌ {A = Outcome Fields} (ok (answer (take 2 rest))) (ok data'))
          × (batch_of data' ≡ ok (take 2 rest))
          × (get "total" data' ≡ some (Json.num 3))
    served [] = (_, refl, refl, refl)
    served (x ∷ []) = (_, refl, refl, refl)
    served (x ∷ y ∷ rest) = (_, refl, refl, refl)

search_issues_end_example : is_some (search_issues server (λ _. "now") 4 "P" none) ≡ true
unfolding jql get
search_issues_end_example =
    search_issues_end server (λ _. "now") "P" none 3
      (λ start data' n h k.
        let e : answer (take 2 (drop start issues)) ≡ data' = cc h in
        let total : some (Json.num 3) ≡ some (Json.num n) = ap (get "total") e ∙ k in
        let same : 3 ≡ n = cc total in omega (arith, same))

-- A document of two paragraphs.
abbrev paragraph : String → Json
paragraph t = Json.obj (
    Json.field "type" (Json.str "paragraph") (
      Json.field "content"
        (Json.arr (
          Json.cons
            (Json.obj
              (Json.field "type" (Json.str "text") (Json.field "text" (Json.str t) Json.end)))
            Json.nil))
        Json.end))

document_text :
    extract_text (
      Json.obj (
        Json.field "content"
          (Json.arr (Json.cons (paragraph "one") (Json.cons (paragraph "two") Json.nil)))
          Json.end))
    ≡ ok "one two"
unfolding extract_text
document_text = refl
