-- ===== src/Github/Trim.antt =====
-- The pull requests that the client of src/github/service.py keeps of a list sorted by their update.
use Prim.Native.String.compare
use omnisync.Base.{
  ◌≡◌, refl, inl, inr, true, false, not, String, List, [], ◌∷◌, map, some, ◌≢◌, eq_iff, arith,
  Bool-cases, All, All-map, select, text_lt, str_eq,
}
use omnisync.Base.Json.{Json, Fields, truthy}
use omnisync.Base.Outcome.{ok}
use omnisync.Github.Client.{
  Api, updated_of, is_older, trim, endpoint, validate_all, since_text, get_pull_requests,
}

-- A text that is not greater than a smaller one is smaller.
text_lt-le_trans : (x y z : String) → text_lt x z ≡ true → text_lt x y ≡ false → text_lt y z ≡ true
text_lt-le_trans String.[] String.[] z h k = h
text_lt-le_trans String.[] (String.◌∷◌ d y) z h k = absurd (cc (k, compare.nil-cons d y))
text_lt-le_trans (String.◌∷◌ c x) y String.[] h k = absurd (cc (h, compare.cons-nil c x))
text_lt-le_trans (String.◌∷◌ c x) String.[] (String.◌∷◌ e z) h k =
    ground (arith, compare.nil-cons e z)
text_lt-le_trans (String.◌∷◌ c x) (String.◌∷◌ d y) (String.◌∷◌ e z) h k = ground (
  arith,
  compare.cons-cons c e x z,
  compare.cons-cons c d x y,
  compare.cons-cons d e y z,
  text_lt-le_trans x y z,
)

module _ (time : Fields → String) where
  -- The list is sorted by `time`, the latest first.
  abbrev pub IsDescending : List Fields → Type 0
  IsDescending [] = Unit
  IsDescending (x ∷ xs) = All (λ y. text_lt (time x) (time y) ≡ false) xs × IsDescending xs

  -- `time` is the text of the last update.
  abbrev pub IsUpdate : Fields → Type 0
  IsUpdate pr = (updated_of pr ≡ Json.str (time pr)) × (time pr ≢ "")

  abbrev pub recent : String → List Fields → List Fields
  recent since prs = select (λ pr. not (text_lt (time pr) since)) prs

  is_older_lem :
      (since : String) (pr : Fields)
      → IsUpdate pr
      → is_older since (Json.obj pr) ≡ ok (text_lt (time pr) since)
  unfolding is_older truthy
  is_older_lem since pr h = ground (arith, h.0, h.1, eq_iff (time pr) "")

  All-older :
      (since : String) (prs : List Fields)
      → All (λ pr. text_lt (time pr) since ≡ true) prs
      → recent since prs ≡ []
  All-older since [] h = refl
  All-older since (pr ∷ prs) h = rw (h.0) (All-older since prs h.1)

  trim-recent :
      (since : String) (prs : List Fields)
      → All IsUpdate prs
      → IsDescending prs
      → trim since (map Json.obj prs) ≡ ok (map Json.obj (recent since prs))
  unfolding trim
  trim-recent since [] u d = refl
  trim-recent since (pr ∷ prs) u d = elim (Bool-cases (text_lt (time pr) since)) [
    | inl older ↦
        let rest =
          All-older since prs
            (All-map (λ y h. text_lt-le_trans (time pr) (time y) since older h) prs d.0) in
        rw (is_older_lem since pr u.0, older, rest, trim) refl
    | inr newer ↦ rw (is_older_lem since pr u.0, newer, trim-recent since prs u.1 d.1, trim) refl
  ]

  -- Where the API gives the pull requests sorted by their last update, the latest first, those that
  -- the client keeps up to the first old one are all those that were not updated before `since`.
  pub get_pull_requests-recent :
      (api : Api) (owner repo state since : String) (prs : List Fields)
      → since ≢ ""
      → api.request (endpoint owner repo "pulls") (
          ("state", state) ∷ ("per_page", "100") ∷ ("sort", "updated") ∷ ("direction", "desc") ∷ [])
        ≡ ok (map Json.obj prs)
      → All IsUpdate prs
      → IsDescending prs
      → get_pull_requests api owner repo state (some since)
        ≡ validate_all api.validate_pr (map Json.obj (recent since prs))
  unfolding get_pull_requests since_text
  get_pull_requests-recent api owner repo state since prs given h u d =
      elim (Bool-cases (str_eq since "")) [
        | inl missing ↦ absurd (given ((eq_iff since "").0 missing))
        | inr found ↦ ground (arith, found, h, trim-recent since prs u d)
      ]
