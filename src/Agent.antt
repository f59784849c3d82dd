-- ===== src/Agent.antt =====
-- src/agent/router.py: the change feed for consumers, by polling and as a stream.
pub mod Feed
pub mod Consumer
mod Tests
use omnisync.Base.{
  ℕ, suc, Bool, true, false, String, Option, none, some, List, [], ◌∷◌, map, ltb, str_eq,
  if◌then◌else◌, take, last, length, Uuid, Timestamp,
}
use omnisync.Session.{Store}
use omnisync.Pagination.{CursorCodec, CursorKey}
use omnisync.Outbox.Model.{OutboxEvent, Payload}
use omnisync.Outbox.Changes.{change_key, fetch_changes}

pub record ChangeItem : Type 0 where
  pub id : Uuid
  pub aggregate_type : String
  pub aggregate_id : Uuid
  pub event_type : String
  pub payload : Payload
  pub created_at : Timestamp

unfoldable pub item_of : OutboxEvent → ChangeItem
item_of o = record {
  id = o.id;
  aggregate_type = o.aggregate_type;
  aggregate_id = o.aggregate_id;
  event_type = o.event_type;
  payload = o.payload;
  created_at = o.created_at;
}

pub record ChangeFeedResponse : Type 0 where
  pub items : List ChangeItem
  pub next_cursor : Option String
  pub has_more : Bool

module _ (codec : CursorCodec) where
  open codec use {encode_cursor, decode_cursor}

  -- `decode_cursor(cursor) if cursor else None`; the outer `none` is the exception.
  pub read_position : Option String → Option (Option CursorKey)
  read_position none = some none
  read_position (some t) =
      if str_eq t ""
      then some none
      else elim (decode_cursor t) [ none ↦ none | some k ↦ some (some k) ]

  -- Without rows the consumer keeps its cursor.
  pub feed_cursor : Option String → List OutboxEvent → Option String
  feed_cursor cursor [] = cursor
  feed_cursor cursor (o ∷ os) = some (encode_cursor (change_key (last o os)))

  -- `rows` is the answer to the query with `limit + 1`.
  pub feed_page : Option String → ℕ → List OutboxEvent → ChangeFeedResponse
  unfolding feed_cursor item_of
  feed_page cursor limit rows =
      let page = take limit rows in
      record {
        items = map item_of page;
        next_cursor = feed_cursor cursor page;
        has_more = ltb limit (length rows);
      }

  unfoldable pub poll_changes : Option String → ℕ → Store → Option ChangeFeedResponse
  unfolding read_position feed_page fetch_changes
  poll_changes cursor limit db = elim (read_position cursor) [
    | none ↦ none
    | some after ↦ some (feed_page cursor limit (fetch_changes after (suc limit) db.outbox))
  ]

-- What the stream sends: an event for each row, or a comment that keeps the connection open.
pub data Chunk : Type 0 where
  change : ChangeItem → Chunk
  keepalive : Chunk

chunks_of : List OutboxEvent → List Chunk
unfolding item_of
chunks_of [] = keepalive ∷ []
chunks_of (o ∷ os) = map (λ r. change (item_of r)) (o ∷ os)

position_after : Option CursorKey → List OutboxEvent → Option CursorKey
position_after after [] = after
position_after after (o ∷ os) = some (change_key (last o os))

-- One round of `event_generator`: what it sends and its position afterwards.
unfoldable pub stream_round : Option CursorKey → Store → List Chunk × Option CursorKey
unfolding fetch_changes chunks_of position_after
stream_round after db =
    let rows = fetch_changes after 100 db.outbox in (chunks_of rows, position_after after rows)
