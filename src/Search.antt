-- ===== src/Search.antt =====
-- src/search/vector.py: the index of events as the points of a collection. The embedding, the id of a
-- point (`uuid5`), the server's upsert, and the ranking of the points are parameters; that the server does not answer is an
-- argument.
pub mod Points
pub mod Endpoint
mod Tests
use omnisync.Base.{
  ℕ, Bool, true, false, ◌&&◌, String, Option, none, some, List, [], ◌∷◌, map, select, take, str_eq,
  cut, if◌then◌else◌,
}

pub record PointPayload : Type 0 where
  pub event_id : String
  pub source : String
  pub event_type : String
  pub content : String

pub record Point : Type 0 where
  pub id : String
  pub vector : List ℕ
  pub payload : PointPayload

-- The collection, none where there is none yet.
abbrev pub Index : Type 0
Index = Option (List Point)

pub record Engine : Type 0 where
  -- none is its exception
  pub embed_text : String → Option (List ℕ)
  -- `_point_id`
  pub point_id : String → String
  -- `client.upsert` of a point
  pub upsert : Point → List Point → List Point
  -- The score of a point for a query, and the points by their scores.
  pub score : List ℕ → Point → ℕ
  pub rank : List ℕ → List Point → List Point

pub record Hit : Type 0 where
  pub payload : PointPayload
  pub score : ℕ

-- `_ensure_collection`
unfoldable pub ensure_collection : Index → List Point
ensure_collection none = []
ensure_collection (some points) = points

unfoldable pub point_of : Engine → List ℕ → String → String → String → String → Point
point_of engine vector event_id content source event_type = record {
  id = engine.point_id event_id;
  vector = vector;
  payload = record {
    event_id = event_id;
    source = source;
    event_type = event_type;
    content = cut 1000 content;
  };
}

-- `up` is whether the server answers. An embedding that fails comes after the collection is made.
unfoldable pub index_event :
    Engine → Bool → String → String → String → String → Index → Bool × Index
unfolding ensure_collection point_of
index_event engine false event_id content source event_type index = (false, index)
index_event engine true event_id content source event_type index =
    let points = ensure_collection index in
    elim (engine.embed_text content) [
      | none ↦ (false, some points)
      | some vector ↦ (
        true,
        some (engine.upsert (point_of engine vector event_id content source event_type) points),
      )
    ]

-- An empty filter is none.
unfoldable pub matches : (PointPayload → String) → Option String → Point → Bool
matches field none p = true
matches field (some value) p = if str_eq value "" then true else str_eq (field p.payload) value

unfoldable pub search_events :
    Engine → Bool → String → Option String → Option String → ℕ → Index → List Hit × Index
unfolding ensure_collection matches
search_events engine false query source event_type limit index = ([], index)
search_events engine true query source event_type limit index =
    let points = ensure_collection index in
    let found =
      select (λ p. matches (λ q. q.source) source p && matches (λ q. q.event_type) event_type p)
        points in
    elim (engine.embed_text query) [
      | none ↦ ([], some points)
      | some vector ↦ (
        map (λ p. record { payload = p.payload; score = engine.score vector p })
            (take limit (engine.rank vector found)),
        some points,
      )
    ]
