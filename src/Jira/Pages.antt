-- ===== src/Jira/Pages.antt =====
-- The loop over the pages of src/jira/service.py ends, and collects every issue.
use omnisync.Base.{
  ◌≡◌, refl, sym, ap, ◌∙◌, inl, inr, ℕ, zero, suc, ◌+◌, ◌-◌, ◌≤◌, ◌<◌, true, false, Option, some,
  List, [], ◌∷◌, ◌++◌, arith, Bool-cases, Option-cases, is_some, length, take, drop, leb,
  length-drop, String, Timestamp,
}
use mathlib.Core.List.{append-nil, append_assoc}
use omnisync.Base.Json.{Json, Fields, get}
use omnisync.Base.Outcome.{Outcome, Outcome-cases, ok, raised}
use omnisync.Jira.Search.{batch_of, is_last, search_pages, jql, search_issues}

-- Every answer states at most this total.
abbrev pub IsBounded : ℕ → (ℕ → Outcome Fields) → Type 0
IsBounded bound search =
    (start : ℕ) (data' : Fields) (n : ℕ)
    → search start ≡ ok data'
    → get "total" data' ≡ some (Json.num n)
    → n ≤ bound

-- The search is not at its end only below the total.
is_last-below :
    (next : ℕ) (data' : Fields)
    → is_last next data' ≡ ok false
    → (n : ℕ) × (get "total" data' ≡ some (Json.num n)) × (next < n)
unfolding is_last
is_last-below next data' h = elim (Option-cases (get "total" data')) [
  | inl missing ↦ absurd (cc (rw (missing, is_last) at h))
  | inr (total, found) ↦ below total found (rw (found, is_last) at h)
]
  where
    below :
        (total : Json)
        → get "total" data' ≡ some total
        → (elim total [ Json.num n ↦ ok (leb n next) | _ ↦ raised "TypeError" ]) ≡ ok false
        → (n : ℕ) × (get "total" data' ≡ some (Json.num n)) × (next < n)
    below Json.null q k = absurd (cc)
    below (Json.bool b) q k = absurd (cc)
    below (Json.num n) q k = (n, q, ground (arith, k))
    below (Json.str t) q k = absurd (cc)
    below (Json.arr js) q k = absurd (cc)
    below (Json.obj fs) q k = absurd (cc)
    below (Json.other t) q k = absurd (cc)

module _ (search : ℕ → Outcome Fields) (bound : ℕ) (b : IsBounded bound search) where
  search_pages_end :
      (fuel start : ℕ) (issues : List Json)
      → start ≤ bound
      → bound < start + fuel
      → is_some (search_pages search fuel start issues) ≡ true
  unfolding search_pages
  search_pages_end zero start issues h k = absurd (omega arith)
  search_pages_end (suc fuel) start issues h k = elim (Outcome-cases (search start)) [
    | inr (e, failed) ↦ rw (failed, search_pages) refl
    | inl (data', answered) ↦ elim (Outcome-cases (batch_of data')) [
      | inr (e, bad) ↦ rw (answered, bad, search_pages) refl
      | inl (batch, good) ↦ with_batch (search_pages_end fuel) data' batch answered good
    ]
  ]
    where
      with_batch :
          ((next : ℕ) (found : List Json)
            → next ≤ bound
            → bound < next + fuel
            → is_some (search_pages search fuel next found) ≡ true)
          → (data' : Fields) (batch : List Json) → search start ≡ ok data'
          → batch_of data' ≡ ok batch
          → is_some (search_pages search (suc fuel) start issues) ≡ true
      with_batch again data' [] answered good = rw (answered, good, search_pages) refl
      with_batch again data' (x ∷ xs) answered good =
          let next = start + length (x ∷ xs) in
          elim (Outcome-cases (is_last next data')) [
            | inr (e, bad) ↦ rw (answered, good, bad, search_pages) refl
            | inl (true, last) ↦ rw (answered, good, last, search_pages) refl
            | inl (false, more) ↦
                let below = is_last-below next data' more in
                let n = b start data' below.0 answered below.1 in
                rw (answered, good, more, search_pages)
                  (again next (issues ++ x ∷ xs) (omega (arith, below.2, n)) (omega (arith, k)))
          ]

length-le-take : (n : ℕ) (xs : List Json) → length xs ≤ length (take n xs) → take n xs ≡ xs
length-le-take zero [] h = refl
length-le-take zero (x ∷ xs) h = absurd (omega (arith, h))
length-le-take (suc n) [] h = refl
length-le-take (suc n) (x ∷ xs) h = ap (◌∷◌ x) (length-le-take n xs (omega (arith, h)))

take-append-drop_taken : (n : ℕ) (xs : List Json) → take n xs ++ drop (length (take n xs)) xs ≡ xs
take-append-drop_taken zero xs = refl
take-append-drop_taken (suc n) [] = refl
take-append-drop_taken (suc n) (x ∷ xs) = ap (◌∷◌ x) (take-append-drop_taken n xs)

drop_after :
    (a n : ℕ) (x : Json) (all xs : List Json)
    → drop a all ≡ x ∷ xs
    → drop (a + suc n) all ≡ drop n xs
drop_after zero n x all xs h =
    let e : zero + suc n ≡ suc n = omega arith in ap (λ k. drop k all) e ∙ ap (drop (suc n)) h
drop_after (suc a) n x [] xs h = absurd (cc)
drop_after (suc a) n x (y ∷ ys) xs h =
    let e : suc a + suc n ≡ suc (a + suc n) = omega arith in
    ap (λ k. drop k (y ∷ ys)) e ∙ drop_after a n x ys xs h

-- The server holds these issues, and answers with up to `suc p` of them from a position on.
abbrev pub IsServing : (ℕ → Outcome Fields) → ℕ → List Json → Type 0
IsServing search p issues =
    (start : ℕ)
    → (data' : Fields) × (search start ≡ ok data')
      × (batch_of data' ≡ ok (take (suc p) (drop start issues)))
      × (get "total" data' ≡ some (Json.num (length issues)))

module _ (search : ℕ → Outcome Fields) (p : ℕ) (issues : List Json)
    (v : IsServing search p issues) where
  search_pages_all :
      (fuel start : ℕ) (found : List Json)
      → start ≤ length issues
      → length issues < start + fuel
      → search_pages search fuel start found ≡ some (ok (found ++ drop start issues))
  unfolding search_pages is_last
  search_pages_all zero start found h k = absurd (omega (arith, h, k))
  search_pages_all (suc fuel) start found h k =
      page (search_pages_all fuel) (drop start issues) refl
    where
      page :
          ((next : ℕ) (found : List Json)
            → next ≤ length issues
            → length issues < next + fuel
            → search_pages search fuel next found ≡ some (ok (found ++ drop next issues)))
          → (rest : List Json) → drop start issues ≡ rest
          → search_pages search (suc fuel) start found ≡ some (ok (found ++ rest))
      page again [] q =
          let served = v start in
          let batch : batch_of served.0 ≡ ok [] = served.2 ∙ ap (λ t. ok (take (suc p) t)) q in
          rw (served.1, batch, search_pages) (ap (λ t. some (ok t)) (sym (append-nil found)))
      page again (x ∷ xs) q =
          let served = v start in
          let batch : batch_of served.0 ≡ ok (x ∷ take p xs) =
            served.2 ∙ ap (λ t. ok (take (suc p) t)) q in
          let size : suc (length xs) ≡ length issues - start =
            ap length (sym q) ∙ length-drop start issues in
          let next = start + suc (length (take p xs)) in
          elim (Bool-cases (leb (length issues) next)) [
            | inl last ↦
                let whole = length-le-take p xs (ground (arith, last, size)) in
                rw (served.1, batch, served.3, last, search_pages, is_last)
                  (ap (λ t. some (ok (found ++ x ∷ t))) whole)
            | inr more ↦
                rw (served.1, batch, served.3, more, search_pages, is_last)
                  (again next (found ++ x ∷ take p xs) (ground (arith, more)) (omega (arith, k))
                    ∙ ap (λ t. some (ok t))
                        (append_assoc found (x ∷ take p xs) (drop next issues)
                          ∙ ap (λ t. found ++ x ∷ t)
                              (ap (take p xs ++◌)
                                  (drop_after start (length (take p xs)) x issues xs q)
                                ∙ take-append-drop_taken p xs)))
          ]

module _ (search : String → ℕ → Outcome Fields) (strftime : Timestamp → String) (project : String)
    (since : Option Timestamp) where
  -- The query that is searched for.
  abbrev pub query : ℕ → Outcome Fields
  query = search (jql strftime project since)

  -- Where no answer of the server states a total above a bound, whatever the pages are, the loop ends
  -- after at most one request more than the bound, with the issues or with the exception of a
  -- request.
  pub search_issues_end :
      (bound : ℕ)
      → IsBounded bound query
      → is_some (search_issues search strftime (suc bound) project since) ≡ true
  unfolding search_issues
  search_issues_end bound b =
      search_pages_end query bound b (suc bound) 0 [] (omega arith) (omega arith)

  -- Where the server holds a list of issues through the whole search, and answers each request with
  -- those from its position on, up to a page of at least one, the loop ends with all the issues, each
  -- once and in their order.
  pub search_issues_all :
      (p : ℕ) (issues : List Json)
      → IsServing query p issues
      → search_issues search strftime (suc (length issues)) project since ≡ some (ok issues)
  unfolding search_issues
  search_issues_all p issues v =
      search_pages_all query p issues v (suc (length issues)) 0 [] (omega arith) (omega arith)
