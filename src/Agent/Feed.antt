-- ===== src/Agent/Feed.antt =====
-- One poll of the change feed.
use mathlib.Core.List.{append-nil}
use omnisync.Base.{
  inl, inr, ◌⊎◌, ◌<◌, ◌≤◌, Uuid, Timestamp, ℕ, suc, ◌≡◌, refl, sym, ap, ◌∙◌, false, String, Option,
  none, some, List, [], ◌∷◌, ◌++◌, map, ltb, eq_iff, select, take, drop, last, length, arith,
  All-of, length-take, take-take-suc, select-true,
}
use omnisync.Base.Keyset.{sort, after}
use omnisync.Base.Keyset.Order.{before, before-IsStrictOrder}
use omnisync.Base.Keyset.Sorted.{IsDistinct, sort-IsStrict, select-sort}
use omnisync.Base.Keyset.Paging.{select-after_page, select_congr}
use omnisync.Base.Keyset.Growth.{take-nil→drop, select-append}
use omnisync.Session.{Store}
use omnisync.Pagination.{CursorCodec, CursorKey}
use omnisync.Outbox.Model.{OutboxEvent}
use omnisync.Outbox.Changes.{change_key, after_position, fetch_changes}
use omnisync.Agent.{
  ChangeFeedResponse, item_of, read_position, feed_cursor, feed_page, poll_changes,
}

-- The whole feed, and what follows a position.
abbrev pub feed : List OutboxEvent → List OutboxEvent
feed rows = sort before change_key rows

abbrev pub pending_after : Option CursorKey → List OutboxEvent → List OutboxEvent
pending_after c rows = select (after before change_key c) (feed rows)

after_position-eq-select :
    (c : Option CursorKey) (rows : List OutboxEvent)
    → after_position c rows ≡ select (after before change_key c) rows
unfolding after_position
after_position-eq-select none rows = sym (select-true rows)
after_position-eq-select (some (t, i)) rows =
    select_congr before before-IsStrictOrder change_key _ _ rows (All-of _ (λ y. ground arith) rows)

fetch_changes-eq-take :
    (c : Option CursorKey) (n : ℕ) (rows : List OutboxEvent)
    → fetch_changes c n rows ≡ take n (pending_after c rows)
unfolding fetch_changes
fetch_changes-eq-take c n rows = ap (take n) (
    ap (sort before change_key) (after_position-eq-select c rows)
    ∙ sym (select-sort before before-IsStrictOrder change_key (after before change_key c) rows))

-- The position after a page.
abbrev pub moved : Option CursorKey → List OutboxEvent → Option CursorKey
moved c [] = c
moved c (o ∷ os) = some (change_key (last o os))

pub pending_after-moved :
    (c : Option CursorKey) (limit : ℕ) (rows : List OutboxEvent)
    → IsDistinct before change_key rows
    → pending_after (moved c (take limit (pending_after c rows))) rows
      ≡ drop limit (pending_after c rows)
pending_after-moved c limit rows d = go (take limit (pending_after c rows)) refl
  where
    go :
        (page : List OutboxEvent)
        → take limit (pending_after c rows) ≡ page
        → pending_after (moved c page) rows ≡ drop limit (pending_after c rows)
    go [] e = sym (take-nil→drop limit (pending_after c rows) e)
    go (o ∷ os) e =
        select-after_page before before-IsStrictOrder change_key (feed rows)
          (sort-IsStrict before before-IsStrictOrder change_key rows d) c limit e

module _ (codec : CursorCodec) where
  open codec use {encode_cursor, decode_cursor, decode-encode, encode-ne-empty}

  abbrev pub cursor_at : Option CursorKey → Option String
  cursor_at none = none
  cursor_at (some k) = some (encode_cursor k)

  read_position-cursor_at : (c : Option CursorKey) → read_position codec (cursor_at c) ≡ some c
  unfolding read_position
  read_position-cursor_at none = refl
  read_position-cursor_at (some k) =
      ground (arith, eq_iff (encode_cursor k) "", encode-ne-empty k, decode-encode k)

  feed_cursor-cursor_at :
      (c : Option CursorKey) (page : List OutboxEvent)
      → feed_cursor codec (cursor_at c) page ≡ cursor_at (moved c page)
  unfolding feed_cursor
  feed_cursor-cursor_at c [] = refl
  feed_cursor-cursor_at c (o ∷ os) = refl

  -- A poll at a position, over rows with distinct keys: the answer has the first `limit` items that
  -- follow the position, says whether more follow, and has the cursor of the last of them, or the
  -- old one if there is none; what follows that cursor is exactly the rest.
  pub poll_changes_page :
      (c : Option CursorKey) (limit : ℕ) (db : Store)
      → IsDistinct before change_key db.outbox
      → let rest = pending_after c db.outbox in
        let c' = moved c (take limit rest) in
        (p : ChangeFeedResponse) × (poll_changes codec (cursor_at c) limit db ≡ some p)
        × (p.items ≡ map item_of (take limit rest))
        × (p.has_more ≡ ltb limit (length rest))
        × (p.next_cursor ≡ cursor_at c')
        × (pending_after c' db.outbox ≡ drop limit rest)
  unfolding poll_changes feed_page
  poll_changes_page c limit db d =
      let rest = pending_after c db.outbox in
      let page = take-take-suc limit rest in
      (
        feed_page codec (cursor_at c) limit (take (suc limit) rest),
        rw (read_position-cursor_at c, poll_changes)
            (ap (λ r. some (feed_page codec (cursor_at c) limit r))
              (fetch_changes-eq-take c (suc limit) db.outbox)),
        ap (map item_of) page,
        ground (arith, length-take (suc limit) rest),
        ap (feed_cursor codec (cursor_at c)) page ∙ feed_cursor-cursor_at c (take limit rest),
        pending_after-moved c limit db.outbox d,
      )

-- What follows a position is the same with such a row and without.
pending_after_late :
    (c : Option CursorKey) (late : OutboxEvent) (rows : List OutboxEvent)
    → after before change_key c late ≡ false
    → pending_after c (rows ++ late ∷ []) ≡ pending_after c rows
pending_after_late c late rows h =
    select-sort before before-IsStrictOrder change_key (after before change_key c)
      (rows ++ late ∷ [])
    ∙ ap (sort before change_key)
        (select-append (after before change_key c) rows (late ∷ []) ∙ without)
    ∙ sym (select-sort before before-IsStrictOrder change_key (after before change_key c) rows)
  where
    without :
        select (after before change_key c) rows ++ select (after before change_key c) (late ∷ [])
        ≡ select (after before change_key c) rows
    without = rw h (append-nil (select (after before change_key c) rows))

-- A row that is committed late, with a time before the position of a consumer, or with the same time
-- and no higher id, is never shown to it: whatever the limit, a poll with the consumer's cursor gives
-- the same answer with the row and without.
pub late_row_skipped :
    (codec : CursorCodec) (t : Timestamp) (i : Uuid) (late : OutboxEvent) (limit : ℕ) (db : Store)
    → (late.created_at < t) ⊎ ((late.created_at ≡ t) × (late.id ≤ i))
    → let cursor = some (codec.encode_cursor (t, i)) in
      poll_changes codec cursor limit (record db { outbox = db.outbox ++ late ∷ [] })
      ≡ poll_changes codec cursor limit db
unfolding poll_changes
late_row_skipped codec t i late limit db h =
    let past : after before change_key (some (t, i)) late ≡ false = elim h [
      | inl sooner ↦ ground (arith, sooner)
      | inr tie ↦ ground (arith, tie)
    ] in
    let same : fetch_changes (some (t, i)) (suc limit) (db.outbox ++ late ∷ [])
        ≡ fetch_changes (some (t, i)) (suc limit) db.outbox =
      fetch_changes-eq-take (some (t, i)) (suc limit) (db.outbox ++ late ∷ [])
      ∙ ap (take (suc limit)) (pending_after_late (some (t, i)) late db.outbox past)
      ∙ sym (fetch_changes-eq-take (some (t, i)) (suc limit) db.outbox) in
    rw (read_position-cursor_at codec (some (t, i)), poll_changes)
      (ap (λ r. some (feed_page codec (some (codec.encode_cursor (t, i))) limit r)) same)
