-- ===== src/Events/Router.antt =====
-- The endpoints of src/events/router.py, over the reads of `Query`.
pub mod Pages
mod Tests
use omnisync.Base.{ℕ, ◌&&◌, Option, none, some, List, leb, if◌then◌else◌, Uuid}
use omnisync.Auth.{Answer}
use omnisync.Auth.Model.{User}
use omnisync.Auth.Reply.{Reply, answered, unprocessable, not_found, internal_error, as_user}
use omnisync.Session.{Store}
use omnisync.Pagination.{CursorCodec, PaginatedResponse}
use omnisync.Events.Query.{EventFilterParams, EventResponse, EventVersionResponse}
use omnisync.Events.Query

module _ (codec : CursorCodec) where
  -- A cursor that cannot be decoded is an exception that nothing catches.
  unfoldable pub list_events :
      Answer User → EventFilterParams → ℕ → Store → Reply (PaginatedResponse EventResponse)
  unfolding as_user
  list_events user f limit db =
      let page = Query.list_events codec f limit db in
      as_user user (
        if leb 1 limit && leb limit 100
        then elim page [ none ↦ internal_error | some p ↦ answered p ]
        else unprocessable)

unfoldable pub get_event : Answer User → Uuid → Store → Reply EventResponse
unfolding as_user
get_event user i db =
    as_user user (elim (Query.get_event i db) [ none ↦ not_found | some ev ↦ answered ev ])

-- An event that does not exist has an empty history.
unfoldable pub get_event_history : Answer User → Uuid → Store → Reply (List EventVersionResponse)
unfolding as_user
get_event_history user i db = as_user user (answered (Query.get_event_history i db))
