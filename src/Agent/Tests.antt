-- ===== src/Agent/Tests.antt =====
-- Concrete runs of the change feed.
use omnisync.Base.{
  inl, ℕ, ◌≡◌, refl, true, Option, none, some, List, [], ◌∷◌, ◌++◌, map, take, drop, ltb, length,
  arith,
}
use omnisync.Session.{Store}
use omnisync.Pagination.{CursorKey}
use omnisync.Pagination.Unary.{unary_codec}
use omnisync.Outbox.Model.{OutboxEvent, Status}
use omnisync.Agent.{ChangeFeedResponse, item_of, poll_changes}
use omnisync.Agent.Feed.{feed, pending_after, moved, cursor_at, poll_changes_page, late_row_skipped}
use omnisync.Agent.Consumer.{System, Step, Steps, consumer_reads_feed}

abbrev entry_at : ℕ → ℕ → OutboxEvent
entry_at i time = record {
  id = i;
  aggregate_type = "normalized_event";
  aggregate_id = 7;
  event_type = "commit";
  payload = record {
    event_id = 7;
    source = "github";
    external_id = "c1";
    event_type = "commit";
    content = "first";
    version = 1;
    schema_version = 1;
  };
  status = Status.pending;
  attempts = 0;
  last_error = none;
  created_at = time;
  published_at = none;
}

abbrev tables : List OutboxEvent → Store
tables rows = record {
  events = [];
  versions = [];
  outbox = rows;
  raw_payloads = [];
  failed_events = [];
  sync_states = [];
  sync_logs = [];
  deliveries = [];
  users = [];
}

abbrev two_entries : List OutboxEvent
two_entries = entry_at 3 60 ∷ entry_at 4 60 ∷ []

poll_changes_page_example :
    let rest = pending_after (some (60, 3)) two_entries in
    let c' = moved (some (60, 3)) (take 1 rest) in
    (p : ChangeFeedResponse) × (poll_changes unary_codec
        (cursor_at unary_codec (some (60, 3)))
        1
        (tables two_entries)
      ≡ some p)
    × (p.items ≡ map item_of (take 1 rest))
    × (p.has_more ≡ ltb 1 (length rest))
    × (p.next_cursor ≡ cursor_at unary_codec c')
    × (pending_after c' two_entries ≡ drop 1 rest)
poll_changes_page_example =
    poll_changes_page unary_codec (some (60, 3)) 1 (tables two_entries)
      (((λ e. ground (arith, e)), tt), (tt, tt))

late_row_skipped_example :
    let cursor = cursor_at unary_codec (some (60, 4)) in
    poll_changes unary_codec cursor 5 (tables (two_entries ++ entry_at 9 50 ∷ []))
    ≡ poll_changes unary_codec cursor 5 (tables two_entries)
late_row_skipped_example =
    late_row_skipped unary_codec 60 4 (entry_at 9 50) 5 (tables two_entries) (inl (omega arith))

abbrev fresh_consumer : System
fresh_consumer = record { store = tables two_entries; cursor = none; received = [] }

abbrev first_answer : ChangeFeedResponse
first_answer = record {
  items = item_of (entry_at 3 60) ∷ [];
  next_cursor = cursor_at unary_codec (some (60, 3));
  has_more = true;
}

abbrev after_poll : System
after_poll = record {
  store = tables two_entries;
  cursor = first_answer.next_cursor;
  received = first_answer.items;
}

abbrev after_append : System
after_append = record after_poll { store = tables (two_entries ++ entry_at 5 61 ∷ []) }

polled : poll_changes unary_codec none 1 (tables two_entries) ≡ some first_answer
unfolding poll_changes
polled = refl

poll_then_append : Steps unary_codec fresh_consumer after_append
poll_then_append =
    Steps.then {s' = after_poll}
      (Steps.then Steps.done (Step.poll {s = fresh_consumer} 1 first_answer polled))
      (Step.append {s = after_poll} (entry_at 5 61) (refl, (refl, tt)))

consumer_reads_feed_example :
    (c : Option CursorKey) × (after_append.cursor ≡ cursor_at unary_codec c)
    × (after_append.received ++ map item_of (pending_after c after_append.store.outbox)
        ≡ map item_of (feed after_append.store.outbox))
consumer_reads_feed_example =
    consumer_reads_feed unary_codec {s = fresh_consumer} {s' = after_append} refl refl
      (((λ e. ground (arith, e)), tt), (tt, tt)) poll_then_append
