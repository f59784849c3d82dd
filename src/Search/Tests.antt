-- ===== src/Search/Tests.antt =====
-- Concrete runs of the index.
use omnisync.Base.{
  ◌≡◌, ◌≢◌, ◌⊎◌, refl, ap, inl, inr, ℕ, true, false, String, Option, none, some, List, [], ◌∷◌,
  arith, eq_iff, Bool-cases, str_eq, if◌then◌else◌,
}
use omnisync.Search.{Engine, Point, ensure_collection, index_event}
use omnisync.Search.Points.{IsUpsert, point_in, event_point, index_event-event_point}

-- A server that keeps one point for each id.
abbrev put_point : Point → List Point → List Point
put_point p [] = p ∷ []
put_point p (q ∷ points) =
    let rest = put_point p points in if str_eq q.id p.id then p ∷ points else q ∷ rest

put_point-IsUpsert : IsUpsert put_point
unfolding ensure_collection
put_point-IsUpsert p [] i = refl
put_point-IsUpsert p (q ∷ points) i = elim (Bool-cases (str_eq q.id p.id)) [
  | inl same ↦
      let e : str_eq q.id i ≡ str_eq p.id i = ap (λ t. str_eq t i) ((eq_iff q.id p.id).0 same) in
      rw (same, put_point, e) (ground arith)
  | inr apart ↦
      rw (apart, put_point)
        (ground (
          arith,
          apart,
          eq_iff q.id p.id,
          eq_iff q.id i,
          eq_iff p.id i,
          put_point-IsUpsert p points i,
        ))
]

abbrev engine : Engine
engine = record {
  embed_text = λ t. some (if str_eq t "one" then 1 ∷ [] else 2 ∷ []);
  point_id = λ i. i;
  upsert = put_point;
  score = λ v p. 1;
  rank = λ v points. points;
}

index_event-event_point_example :
    let (done, after) = index_event engine true "e1" "one" "github" "commit" none in
    (((true ≡ false) ⊎ (◌≡◌ {A = Option (List ℕ)} (some (1 ∷ [])) none))
      × (done ≡ false)
      × ((i : String) → point_in i after ≡ point_in i none))
    ⊎ ((true ≡ true)
        × (done ≡ true)
        × (vector : List ℕ) × (◌≡◌ {A = Option (List ℕ)} (some (1 ∷ [])) (some vector))
        × (point_in "e1" after ≡ some (event_point engine vector "e1" "one" "github" "commit"))
        × ((i : String) → i ≢ "e1" → point_in i after ≡ point_in i none)
        × ((i : String)
            → point_in i (index_event engine true "e1" "one" "github" "commit" after).1
              ≡ point_in i after))
index_event-event_point_example =
    index_event-event_point engine true "e1" "one" "github" "commit" none put_point-IsUpsert
