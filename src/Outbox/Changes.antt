-- ===== src/Outbox/Changes.antt =====
-- `fetch_changes` of src/outbox/service.py: the change feed after a position, oldest first.
use omnisync.Base.{ℕ, ◌||◌, ◌&&◌, Option, none, some, List, ltb, ◌==◌, select, take}
use omnisync.Base.Keyset.{sort}
use omnisync.Base.Keyset.Order.{before}
use omnisync.Pagination.{CursorKey}
use omnisync.Outbox.Model.{OutboxEvent}

abbrev pub change_key : OutboxEvent → CursorKey
change_key o = (o.created_at, o.id)

unfoldable pub after_position : Option CursorKey → List OutboxEvent → List OutboxEvent
after_position none rows = rows
after_position (some (after_ts, after_id)) rows =
    select (λ o. ltb after_ts o.created_at || (o.created_at == after_ts && ltb after_id o.id)) rows

unfoldable pub fetch_changes : Option CursorKey → ℕ → List OutboxEvent → List OutboxEvent
unfolding after_position
fetch_changes after limit rows = take limit (sort before change_key (after_position after rows))
