-- ===== src/Events/Query/Listing.antt =====
-- The listing that the pages of src/events/service.py are cut from.
use omnisync.Base.{
  ◌≤◌, ◌≡◌, refl, sym, ap, ◌∙◌, inl, inr, Bool, String, Option, none, some, List, [], ◌∷◌, str_eq,
  select, length, All, arith, Bool-cases, Uuid, Timestamp, select-true, length-select-le,
}
use omnisync.Base.Keyset.{sort, after}
use omnisync.Base.Keyset.Order.{later, later-IsStrictOrder}
use omnisync.Base.Keyset.Sorted.{IsStrict, IsDistinct, sort-IsStrict, select-sort}
use omnisync.Session.{Store}
use omnisync.Pagination.{CursorKey}
use omnisync.Events.Model.{NormalizedEvent}
use omnisync.Events.Upsert.Ids.{HasDistinctIds, IsFreshId}
use omnisync.Events.Query.{
  EventFilterParams, where_text, where_time, filtered, cursor_key, before_cursor,
}

-- A condition of the query drops rows and changes none.
select-IsFreshId :
    (i : Uuid) (p : NormalizedEvent → Bool) (rows : List NormalizedEvent)
    → IsFreshId i rows
    → IsFreshId i (select p rows)
select-IsFreshId i p [] h = tt
select-IsFreshId i p (ev ∷ rows) h = ground (arith, select-IsFreshId i p rows h.1)

select-HasDistinctIds :
    (p : NormalizedEvent → Bool) (rows : List NormalizedEvent)
    → HasDistinctIds rows
    → HasDistinctIds (select p rows)
select-HasDistinctIds p [] h = tt
select-HasDistinctIds p (ev ∷ rows) h =
    ground (arith, select-HasDistinctIds p rows h.1, select-IsFreshId ev.id p rows h.0)

where_text-HasDistinctIds :
    (t : Option String) (test : String → NormalizedEvent → Bool) (rows : List NormalizedEvent)
    → HasDistinctIds rows
    → HasDistinctIds (where_text t test rows)
unfolding where_text
where_text-HasDistinctIds none test rows h = h
where_text-HasDistinctIds (some t) test rows h = elim (Bool-cases (str_eq t "")) [
  | inl e ↦ rw e h
  | inr e ↦ rw e (select-HasDistinctIds (test t) rows h)
]

where_time-HasDistinctIds :
    (t : Option Timestamp) (test : Timestamp → NormalizedEvent → Bool) (rows : List NormalizedEvent)
    → HasDistinctIds rows
    → HasDistinctIds (where_time t test rows)
unfolding where_time
where_time-HasDistinctIds none test rows h = h
where_time-HasDistinctIds (some t) test rows h = select-HasDistinctIds (test t) rows h

filtered-HasDistinctIds :
    (f : EventFilterParams) (rows : List NormalizedEvent)
    → HasDistinctIds rows
    → HasDistinctIds (filtered f rows)
unfolding filtered
filtered-HasDistinctIds f rows h =
    search (where_time-HasDistinctIds, where_text-HasDistinctIds) depth 7

IsDistinct-of_ids :
    (rows : List NormalizedEvent) → HasDistinctIds rows → IsDistinct later cursor_key rows
IsDistinct-of_ids [] h = tt
IsDistinct-of_ids (ev ∷ rows) h = (keys rows h.0, IsDistinct-of_ids rows h.1)
  where
    keys :
        (rs : List NormalizedEvent)
        → IsFreshId ev.id rs
        → All (λ y. ¬ (cursor_key ev ≡ cursor_key y)) rs
    keys [] f = tt
    keys (r ∷ rs) f = (λ q. f.0 (ap (λ (k : CursorKey). k.1) (sym q)), keys rs f.1)

before_cursor-eq-select :
    (c : Option CursorKey) (rows : List NormalizedEvent)
    → before_cursor c rows ≡ select (after later cursor_key c) rows
unfolding before_cursor
before_cursor-eq-select none rows = sym (select-true rows)
before_cursor-eq-select (some (t, i)) rows = refl

-- The matching events, newest first.
abbrev pub listing : EventFilterParams → Store → List NormalizedEvent
listing f db = sort later cursor_key (filtered f db.events)

-- Those after a cursor.
abbrev pub remaining : Option CursorKey → EventFilterParams → Store → List NormalizedEvent
remaining c f db = select (after later cursor_key c) (listing f db)

pub query-eq-remaining :
    (c : Option CursorKey) (f : EventFilterParams) (db : Store)
    → sort later cursor_key (before_cursor c (filtered f db.events)) ≡ remaining c f db
query-eq-remaining c f db =
    ap (sort later cursor_key) (before_cursor-eq-select c (filtered f db.events))
    ∙ sym (
        select-sort later later-IsStrictOrder cursor_key (after later cursor_key c)
          (filtered f db.events))

pub listing-IsStrict :
    (f : EventFilterParams) (db : Store)
    → HasDistinctIds db.events
    → IsStrict later cursor_key (listing f db)
listing-IsStrict f db d =
    sort-IsStrict later later-IsStrictOrder cursor_key (filtered f db.events)
      (IsDistinct-of_ids (filtered f db.events) (filtered-HasDistinctIds f db.events d))

where_text-length :
    (t : Option String) (test : String → NormalizedEvent → Bool) (rows : List NormalizedEvent)
    → length (where_text t test rows) ≤ length rows
unfolding where_text
where_text-length none test rows = omega arith
where_text-length (some t) test rows = ground (arith, length-select-le (test t) rows)

where_time-length :
    (t : Option Timestamp) (test : Timestamp → NormalizedEvent → Bool) (rows : List NormalizedEvent)
    → length (where_time t test rows) ≤ length rows
unfolding where_time
where_time-length none test rows = omega arith
where_time-length (some t) test rows = length-select-le (test t) rows

pub filtered-length :
    (f : EventFilterParams) (rows : List NormalizedEvent) → length (filtered f rows) ≤ length rows
unfolding filtered
filtered-length f rows = omega (arith, where_time-length, where_text-length)
