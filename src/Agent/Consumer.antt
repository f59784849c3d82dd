-- ===== src/Agent/Consumer.antt =====
-- A consumer of the feed: it polls with the cursor of its last answer while rows are appended.
use mathlib.Core.List.{append_assoc, map-append}
use omnisync.Base.{
  ℕ, ◌≡◌, refl, sym, ap, ◌∙◌, true, String, Option, none, some, List, [], ◌∷◌, ◌++◌, map, take,
  drop, select, arith, take-append-drop, select-true, All, All-take, All-select, All-append,
}
use omnisync.Base.Keyset.{after}
use omnisync.Base.Keyset.Order.{before, before-IsStrictOrder}
use omnisync.Base.Keyset.Sorted.{IsDistinct, All-sort}
use omnisync.Base.Keyset.Paging.{last-All}
use omnisync.Base.Keyset.Growth.{sort-append, select-append}
use omnisync.Session.{Store}
use omnisync.Pagination.{CursorCodec, CursorKey}
use omnisync.Outbox.Model.{OutboxEvent}
use omnisync.Outbox.Changes.{change_key}
use omnisync.Agent.{ChangeItem, ChangeFeedResponse, item_of, poll_changes}
use omnisync.Agent.Feed.{feed, pending_after, moved, cursor_at, poll_changes_page}

-- The store, the cursor that the consumer holds, and the items it was given.
pub record System : Type 0 where
  pub store : Store
  pub cursor : Option String
  pub received : List ChangeItem

abbrev pub with_outbox : List OutboxEvent → Store → Store
with_outbox rows db = record db { outbox = rows }

-- A row that comes after all those of a table.
abbrev pub IsNewest : OutboxEvent → List OutboxEvent → Type 0
IsNewest o rows = All (λ r. before (change_key r) (change_key o) ≡ true) rows

module _ (codec : CursorCodec) where
  -- A transaction commits one more row, or the consumer polls with some limit.
  pub data Step : System → System → Type 0 where
    append :
        {s : System} (o : OutboxEvent)
        → IsNewest o s.store.outbox
        → Step s (record s { store = with_outbox (s.store.outbox ++ o ∷ []) s.store })
    poll :
        {s : System} (limit : ℕ) (p : ChangeFeedResponse)
        → poll_changes codec s.cursor limit s.store ≡ some p
        → Step s (record s { cursor = p.next_cursor; received = s.received ++ p.items })

  pub data Steps : System → System → Type 0 where
    done : {s : System} → Steps s s
    then : {s s' s'' : System} → Steps s s' → Step s' s'' → Steps s s''

  -- What was received and what follows the cursor is the whole feed; rows to come are after it.
  pub record IsOnTrack (s : System) : Type 0 where
    pub position : Option CursorKey
    pub at : s.cursor ≡ cursor_at codec position
    pub distinct : IsDistinct before change_key s.store.outbox
    pub ahead :
        (o : OutboxEvent) → IsNewest o s.store.outbox → after before change_key position o ≡ true
    pub whole :
        s.received ++ map item_of (pending_after position s.store.outbox)
        ≡ map item_of (feed s.store.outbox)

  append-IsDistinct :
      (o : OutboxEvent) (rows : List OutboxEvent)
      → IsNewest o rows
      → IsDistinct before change_key rows
      → IsDistinct before change_key (rows ++ o ∷ [])
  append-IsDistinct o [] n d = (tt, tt)
  append-IsDistinct o (r ∷ rows) n d = (
    All-append (λ y. ¬ (change_key r ≡ change_key y)) rows (o ∷ []) d.0 (apart, tt),
    append-IsDistinct o rows n.1 d.1,
  )
    where
      apart : ¬ (change_key r ≡ change_key o)
      apart e = cc (before-IsStrictOrder.irrefl (change_key o), n.0, e)

  append-IsOnTrack :
      (o : OutboxEvent) (s : System)
      → IsNewest o s.store.outbox
      → IsOnTrack s
      → IsOnTrack (record s { store = with_outbox (s.store.outbox ++ o ∷ []) s.store })
  append-IsOnTrack o s n t =
      let rows = s.store.outbox in
      let grown = sort-append before before-IsStrictOrder change_key o rows n in
      let pending : pending_after t.position (rows ++ o ∷ [])
          ≡ pending_after t.position rows ++ o ∷ [] =
        ap (select (after before change_key t.position)) grown
        ∙ select-append (after before change_key t.position) (feed rows) (o ∷ [])
        ∙ ap (λ xs. pending_after t.position rows ++ xs) (rw (t.ahead o n) refl) in
      record {
        position = t.position;
        at = t.at;
        distinct = append-IsDistinct o rows n t.distinct;
        ahead = λ o' n'. t.ahead o' (older o' o rows n');
        whole =
            ap (λ xs. s.received ++ map item_of xs) pending
            ∙ ap (λ xs. s.received ++ xs)
                (map-append item_of (pending_after t.position rows) (o ∷ []))
            ∙ sym (
                append_assoc s.received (map item_of (pending_after t.position rows))
                  (item_of o ∷ []))
            ∙ ap (λ xs. xs ++ item_of o ∷ []) t.whole
            ∙ sym (map-append item_of (feed rows) (o ∷ []))
            ∙ ap (map item_of) (sym grown);
      }
    where
      older :
          (o' o : OutboxEvent) (rows : List OutboxEvent)
          → IsNewest o' (rows ++ o ∷ [])
          → IsNewest o' rows
      older o' o [] h = tt
      older o' o (r ∷ rows) h = (h.0, older o' o rows h.1)

  -- A newest row is after the position that a page moves to.
  moved_ahead :
      (c : Option CursorKey) (limit : ℕ) (rows : List OutboxEvent) (o : OutboxEvent)
      → after before change_key c o ≡ true
      → IsNewest o rows
      → after before change_key (moved c (take limit (pending_after c rows))) o ≡ true
  moved_ahead c limit rows o h n = go (take limit (pending_after c rows)) (
      All-take P limit (pending_after c rows) (
        All-select P (after before change_key c) (feed rows) (All-sort before change_key P rows n)))
    where
      P : OutboxEvent → Type 0
      P r = before (change_key r) (change_key o) ≡ true

      go : (page : List OutboxEvent) → All P page → after before change_key (moved c page) o ≡ true
      go [] a = h
      go (r ∷ rs) a = last-All before before-IsStrictOrder change_key P r rs a

  poll-IsOnTrack :
      (limit : ℕ) (s : System) {p : ChangeFeedResponse}
      → poll_changes codec s.cursor limit s.store ≡ some p
      → IsOnTrack s
      → IsOnTrack (record s { cursor = p.next_cursor; received = s.received ++ p.items })
  poll-IsOnTrack limit s {p} answer t =
      let rest = pending_after t.position s.store.outbox in
      let page = poll_changes_page codec t.position limit s.store t.distinct in
      let same : page.0 ≡ p =
        ground (arith, page.1, ap (λ c. poll_changes codec c limit s.store) t.at, answer) in
      record {
        position = moved t.position (take limit rest);
        at = ap (λ (q : ChangeFeedResponse). q.next_cursor) (sym same) ∙ page.4;
        distinct = t.distinct;
        ahead = λ o n. moved_ahead t.position limit s.store.outbox o (t.ahead o n) n;
        whole =
            ap (λ xs. (s.received ++ p.items) ++ map item_of xs) page.5
            ∙ append_assoc s.received p.items (map item_of (drop limit rest))
            ∙ ap (λ xs. s.received ++ xs)
                (ap (λ xs. xs ++ map item_of (drop limit rest))
                    (ap (λ (q : ChangeFeedResponse). q.items) (sym same) ∙ page.2)
                  ∙ sym (map-append item_of (take limit rest) (drop limit rest))
                  ∙ ap (map item_of) (take-append-drop limit rest))
            ∙ t.whole;
      }

  Step-IsOnTrack : {s s' : System} → Step s s' → IsOnTrack s → IsOnTrack s'
  Step-IsOnTrack {s} (append o n) t = append-IsOnTrack o s n t
  Step-IsOnTrack {s} (poll limit p e) t = poll-IsOnTrack limit s {p = p} e t

  Steps-IsOnTrack : {s s' : System} → Steps s s' → IsOnTrack s → IsOnTrack s'
  Steps-IsOnTrack done t = t
  Steps-IsOnTrack (then steps step) t = Step-IsOnTrack step (Steps-IsOnTrack steps t)

  -- A consumer that starts without a cursor on rows with distinct keys: after any interleaving of
  -- appended rows, each later than all before it, and of polls with any limits, the items it was
  -- given are a beginning of the whole feed in its order, each row once, and what follows its cursor
  -- is all the rest.
  pub consumer_reads_feed :
      {s s' : System}
      → s.cursor ≡ none
      → s.received ≡ []
      → IsDistinct before change_key s.store.outbox
      → Steps s s'
      → (c : Option CursorKey) × (s'.cursor ≡ cursor_at codec c)
        × (s'.received ++ map item_of (pending_after c s'.store.outbox)
            ≡ map item_of (feed s'.store.outbox))
  consumer_reads_feed {s} fresh empty d steps =
      let t = Steps-IsOnTrack steps record {
        position = none;
        at = fresh;
        distinct = d;
        ahead = λ o n. refl;
        whole = rw empty (ap (map item_of) (select-true (feed s.store.outbox)));
      } in
      (t.position, t.at, t.whole)
