-- ===== src/Search/Endpoint.antt =====
-- The endpoint of src/search/router.py.
use omnisync.Base.{ℕ, Bool, String, Option, List, length, leb, ◌&&◌, not, str_eq, if◌then◌else◌}
use omnisync.Auth.{Answer}
use omnisync.Auth.Model.{User}
use omnisync.Auth.Reply.{Reply, answered, unprocessable, as_user}
use omnisync.Search.{Index, Engine, Hit, search_events}

pub record SearchReply : Type 0 where
  pub query : String
  pub results : List Hit
  pub count : ℕ

unfoldable pub search_reply : String → List Hit → SearchReply
search_reply q hits = record { query = q; results = hits; count = length hits }

-- The collection is made by a search that is run, and by no other.
unfoldable pub search :
    Engine
    → Bool
    → Answer User
    → String
    → Option String
    → Option String
    → ℕ
    → Index
    → Reply SearchReply × Index
unfolding as_user search_reply
search engine up user q source event_type limit index =
    let (hits, after) = search_events engine up q source event_type limit index in
    let run = not (str_eq q "") && leb 1 limit && leb limit 50 in
    (
      as_user user (if run then answered (search_reply q hits) else unprocessable),
      elim user [ Answer.refused e ↦ index | Answer.accepted u ↦ if run then after else index ],
    )
