-- ===== src/Events/Query.antt =====
-- The reads of src/events/service.py: `list_events`, `get_watermark`, `get_event`,
-- `get_event_history`.
pub mod Page
pub mod Watermark
pub mod Listing
pub mod Paging
use omnisync.Base.{
  ℕ, suc, Bool, ◌||◌, ◌&&◌, String, Option, none, some, List, [], ◌∷◌, map, ltb, leb, ◌==◌, str_eq,
  max, if◌then◌else◌, select, first, take, last, length, Uuid, Timestamp,
}
use omnisync.Base.Keyset.{sort}
use omnisync.Base.Keyset.Order.{later}
use omnisync.Session.{Store}
use omnisync.Pagination.{CursorCodec, CursorKey, PaginatedResponse}
use omnisync.Events.Model.{NormalizedEvent, EventVersion}

pub record EventFilterParams : Type 0 where
  pub source : Option String
  pub author_id : Option String
  pub event_type : Option String
  pub date_from : Option Timestamp
  pub date_to : Option Timestamp
  pub cursor : Option String

-- `EventResponse`, the fields that a client sees.
pub record EventResponse : Type 0 where
  pub id : Uuid
  pub external_id : String
  pub source : String
  pub author_id : String
  pub author_name : String
  pub content : String
  pub event_type : String
  pub timestamp : Timestamp
  pub created_at : Timestamp
  pub updated_at : Timestamp
  pub version : ℕ
  pub schema_version : ℕ

unfoldable pub response_of : NormalizedEvent → EventResponse
response_of ev = record {
  id = ev.id;
  external_id = ev.external_id;
  source = ev.source;
  author_id = ev.author_id;
  author_name = ev.author_name;
  content = ev.content;
  event_type = ev.event_type;
  timestamp = ev.timestamp;
  created_at = ev.created_at;
  updated_at = ev.updated_at;
  version = ev.version;
  schema_version = ev.schema_version;
}

-- `if value: query = query.where(test(value))`; the empty text is false.
where_text :
    Option String → (String → NormalizedEvent → Bool) → List NormalizedEvent → List NormalizedEvent
where_text none test rows = rows
where_text (some t) test rows = if str_eq t "" then rows else select (test t) rows

where_time :
    Option Timestamp
    → (Timestamp → NormalizedEvent → Bool)
    → List NormalizedEvent
    → List NormalizedEvent
where_time none test rows = rows
where_time (some t) test rows = select (test t) rows

-- The five conditions before the cursor.
pub filtered : EventFilterParams → List NormalizedEvent → List NormalizedEvent
unfolding where_text where_time
filtered f rows =
    where_time f.date_to (λ t ev. leb ev.timestamp t)
      (where_time f.date_from (λ t ev. leb t ev.timestamp)
        (where_text f.event_type (λ t ev. str_eq ev.event_type t)
          (where_text f.author_id (λ t ev. str_eq ev.author_id t)
            (where_text f.source (λ t ev. str_eq ev.source t) rows))))

abbrev pub cursor_key : NormalizedEvent → CursorKey
cursor_key ev = (ev.timestamp, ev.id)

pub before_cursor : Option CursorKey → List NormalizedEvent → List NormalizedEvent
before_cursor none rows = rows
before_cursor (some (ts, i)) rows =
    select (λ ev. ltb ev.timestamp ts || (ev.timestamp == ts && ltb ev.id i)) rows

module _ (codec : CursorCodec) where
  open codec use {encode_cursor, decode_cursor}

  -- The outer `none` is the exception of `decode_cursor`.
  pub read_cursor : Option String → Option (Option CursorKey)
  read_cursor none = some none
  read_cursor (some t) =
      if str_eq t ""
      then some none
      else elim (decode_cursor t) [ none ↦ none | some k ↦ some (some k) ]

  pub next_cursor_of : Bool → List NormalizedEvent → Option String
  next_cursor_of has_more [] = none
  next_cursor_of has_more (ev ∷ evs) =
      if has_more then some (encode_cursor (cursor_key (last ev evs))) else none

  -- `rows` is the answer to the query with `limit + 1`.
  pub page_of : ℕ → List NormalizedEvent → PaginatedResponse EventResponse
  unfolding next_cursor_of
  page_of limit rows =
      let has_more = ltb limit (length rows) in
      let events = take limit rows in
      record {
        items = map response_of events;
        has_more = has_more;
        next_cursor = next_cursor_of has_more events;
        limit = limit;
      }

  pub list_events : EventFilterParams → ℕ → Store → Option (PaginatedResponse EventResponse)
  unfolding read_cursor page_of filtered before_cursor
  list_events f limit db = elim (read_cursor f.cursor) [
    | none ↦ none
    | some cursor ↦ some (
        page_of limit
          (take (suc limit) (sort later cursor_key (before_cursor cursor (filtered f db.events)))))
  ]

latest : List NormalizedEvent → Option Timestamp
latest [] = none
latest (ev ∷ evs) = elim (latest evs) [
  | none ↦ some ev.timestamp
  | some t ↦ some (max ev.timestamp t)
]

-- `SELECT max(timestamp)`
unfoldable pub get_watermark : String → Option String → Store → Option Timestamp
unfolding latest where_text
get_watermark source event_type db = latest (
    where_text event_type (λ t ev. str_eq ev.event_type t)
      (select (λ ev. str_eq ev.source source) db.events))

-- `none` is EventNotFoundError, the answer 404.
pub get_event : Uuid → Store → Option EventResponse
get_event i db = elim (first (λ ev. ev.id == i) db.events) [
  | none ↦ none
  | some ev ↦ some (response_of ev)
]

abbrev version_lt : ℕ → ℕ → Bool
version_lt = ltb

-- The answer has every column of the row.
abbrev pub EventVersionResponse : Type 0
EventVersionResponse = EventVersion

pub get_event_history : Uuid → Store → List EventVersionResponse
get_event_history i db =
    sort version_lt (λ v. v.version) (select (λ v. v.event_id == i) db.versions)
