-- ===== src/Search/Points.antt =====
-- What index_event of src/search/vector.py leaves in the collection.
use omnisync.Base.{
  ◌≡◌, ◌≢◌, refl, sym, inl, inr, ◌⊎◌, ◌∙◌, Bool, true, false, String, Option, none, some, List,
  eq_iff, Bool-cases, Option-cases, first, str_eq, cut, ℕ, if◌then◌else◌,
}
use omnisync.Search.{Engine, Point, Index, ensure_collection, point_of, index_event}

-- The point of an id.
abbrev pub point_in : String → Index → Option Point
point_in i index = first (λ p. str_eq p.id i) (ensure_collection index)

-- The documented behaviour of an upsert: the point is found by its id, and the others as before.
abbrev pub IsUpsert : (Point → List Point → List Point) → Type 0
IsUpsert upsert =
    (p : Point) (points : List Point) (i : String)
    → point_in i (some (upsert p points))
      ≡ (if str_eq p.id i then some p else point_in i (some points))

-- The point of an event, for an embedding of its content.
abbrev pub event_point : Engine → List ℕ → String → String → String → String → Point
event_point engine vector event_id content source event_type = record {
  id = engine.point_id event_id;
  vector = vector;
  payload = record {
    event_id = event_id;
    source = source;
    event_type = event_type;
    content = cut 1000 content;
  };
}

str_eq-apart : (a i : String) → i ≢ a → str_eq a i ≡ false
str_eq-apart a i other = elim (Bool-cases (str_eq a i)) [
  | inl same ↦ absurd (other (sym ((eq_iff a i).0 same)))
  | inr apart ↦ apart
]

upsert_again :
    (upsert : Point → List Point → List Point)
    → IsUpsert upsert
    → (p : Point) (points : List Point) (i : String)
    → point_in i (some (upsert p (upsert p points))) ≡ point_in i (some (upsert p points))
upsert_again upsert puts p points i = elim (Bool-cases (str_eq p.id i)) [
  | inl same ↦
      let one : point_in i (some (upsert p points)) ≡ some p = puts p points i ∙ rw same refl in
      let two : point_in i (some (upsert p (upsert p points))) ≡ some p =
        puts p (upsert p points) i ∙ rw same refl in
      two ∙ sym one
  | inr apart ↦ puts p (upsert p points) i ∙ rw apart refl
]

-- With a server whose upsert behaves as documented: where it does not answer, or the content has no
-- embedding, the answer is false and every point is as before. Else the answer is true, the point of
-- the event is found under its id, with the embedding of the content, the id, the source and the type
-- of the event and the first 1000 characters of the content, every other point is as before, and
-- indexing the event again leaves each point as it is.
pub index_event-event_point :
    (engine : Engine) (up : Bool) (event_id content source event_type : String) (index : Index)
    → IsUpsert engine.upsert
    → let (done, after) = index_event engine up event_id content source event_type index in
      let id = engine.point_id event_id in
      (((up ≡ false) ⊎ (engine.embed_text content ≡ none))
        × (done ≡ false)
        × ((i : String) → point_in i after ≡ point_in i index))
      ⊎ ((up ≡ true)
          × (done ≡ true)
          × (vector : List ℕ) × (engine.embed_text content ≡ some vector)
          × (point_in id after
              ≡ some (event_point engine vector event_id content source event_type))
          × ((i : String) → i ≢ id → point_in i after ≡ point_in i index)
          × ((i : String)
              → point_in i (index_event engine up event_id content source event_type after).1
                ≡ point_in i after))
unfolding index_event ensure_collection point_of
index_event-event_point engine false event_id content source event_type index puts =
    inl (inl refl, refl, λ i. refl)
index_event-event_point engine true event_id content source event_type index puts =
    elim (Option-cases (engine.embed_text content)) [
      | inl bad ↦ rw (bad, index_event) (inl (inr refl, refl, λ i. refl))
      | inr (vector, good) ↦
          let p = point_of engine vector event_id content source event_type in
          let points = ensure_collection index in
          rw (good, index_event)
            (inr (
              refl,
              refl,
              vector,
              refl,
              puts p points p.id ∙ rw ((eq_iff p.id p.id).1 refl) refl,
              (λ i other. puts p points i ∙ rw (str_eq-apart p.id i other) refl),
              (λ i. rw (good, index_event) (upsert_again engine.upsert puts p points i)),
            ))
    ]
