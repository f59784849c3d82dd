-- ===== src/Events/Query/Paging.antt =====
-- Following `next_cursor` reads every matching event once, newest first.
use mathlib.Core.List.{map-append}
use omnisync.Base.{
  ℕ, zero, suc, ◌≤◌, ◌<◌, ◌≡◌, ◌≢◌, refl, sym, ap, subst, ◌∙◌, inl, inr, Bool, true, String, Option,
  none, some, List, [], ◌∷◌, ◌++◌, map, ltb, eq_iff, if◌then◌else◌, take, drop, last, length, arith,
  Bool-cases, Option-cases, length-take, take-take-suc, select-true, take-append-drop, length-drop,
  take_all,
}
use omnisync.Base.Keyset.Order.{later, later-IsStrictOrder}
use omnisync.Base.Keyset.Sorted.{length-sort}
use omnisync.Base.Keyset.Paging.{select-after_page}
use omnisync.Session.{Store}
use omnisync.Pagination.{CursorCodec, CursorKey, PaginatedResponse}
use omnisync.Events.Model.{NormalizedEvent}
use omnisync.Events.Upsert.Ids.{HasDistinctIds}
use omnisync.Events.Query.{
  EventFilterParams, EventResponse, response_of, filtered, cursor_key, read_cursor, next_cursor_of,
  page_of, list_events,
}
use omnisync.Events.Query.Listing.{
  listing, remaining, query-eq-remaining, listing-IsStrict, filtered-length,
}

module _ (codec : CursorCodec) where
  open codec use {encode_cursor, decode_cursor, decode-encode, encode-ne-empty}

  abbrev cursor_of : Option CursorKey → Option String
  cursor_of none = none
  cursor_of (some k) = some (encode_cursor k)

  -- What the listing makes of a cursor that it gave out.
  read_cursor-cursor_of : (c : Option CursorKey) → read_cursor codec (cursor_of c) ≡ some c
  unfolding read_cursor
  read_cursor-cursor_of none = refl
  read_cursor-cursor_of (some k) =
      ground (arith, eq_iff (encode_cursor k) "", encode-ne-empty k, decode-encode k)

  -- The key of the last row of a page, where more rows follow.
  abbrev key_after : Bool → List NormalizedEvent → Option CursorKey
  key_after more [] = none
  key_after more (ev ∷ evs) = if more then some (cursor_key (last ev evs)) else none

  abbrev next_key : ℕ → List NormalizedEvent → Option CursorKey
  next_key limit rows = key_after (ltb limit (length rows)) (take limit rows)

  -- The answer for a page of the rows after a cursor.
  abbrev IsPage : ℕ → List NormalizedEvent → PaginatedResponse EventResponse → Type 0
  IsPage limit rows p =
      (p.items ≡ map response_of (take limit rows))
      × (p.has_more ≡ ltb limit (length rows))
      × (p.next_cursor ≡ cursor_of (next_key limit rows))

  page_of-IsPage :
      (limit : ℕ) (rows : List NormalizedEvent)
      → IsPage limit rows (page_of codec limit (take (suc limit) rows))
  unfolding page_of next_cursor_of
  page_of-IsPage limit rows =
      let t = take-take-suc limit rows in
      let m : ltb limit (length (take (suc limit) rows)) ≡ ltb limit (length rows) =
        ground (arith, length-take (suc limit) rows) in
      (ap (map response_of) t, m, rw (t, m) (next rows))
    where
      next :
          (rs : List NormalizedEvent)
          → next_cursor_of codec (ltb limit (length rs)) (take limit rs)
            ≡ cursor_of (next_key limit rs)
      next rs = ground arith

  list_events-IsPage :
      (f : EventFilterParams) (limit : ℕ) (db : Store) (c : Option CursorKey)
      → (p : PaginatedResponse EventResponse) × (list_events codec
            (record f { cursor = cursor_of c })
            limit
            db
          ≡ some p)
        × IsPage limit (remaining c f db) p
  unfolding list_events filtered
  list_events-IsPage f limit db c =
      let rows = remaining c f db in
      (
        page_of codec limit (take (suc limit) rows),
        rw (read_cursor-cursor_of c, list_events)
            (ap (λ r. some (page_of codec limit (take (suc limit) r))) (query-eq-remaining c f db)),
        page_of-IsPage limit rows,
      )

  abbrev prepend : List EventResponse → Option (List EventResponse) → Option (List EventResponse)
  prepend items none = none
  prepend items (some rest) = some (items ++ rest)

  abbrev with_next :
      List EventResponse
      → Option String
      → (String → Option (List EventResponse))
      → Option (List EventResponse)
  with_next items none more = some items
  with_next items (some t) more = prepend items (more t)

  abbrev follow :
      Option (PaginatedResponse EventResponse)
      → (String → Option (List EventResponse))
      → Option (List EventResponse)
  follow none more = none
  follow (some p) more = with_next p.items p.next_cursor more

  -- A client that follows `next_cursor`, with fuel for the number of pages; `none` is a failed call
  -- or no fuel.
  abbrev pub read_all : ℕ → EventFilterParams → ℕ → Store → Option (List EventResponse)
  read_all zero f limit db = none
  read_all (suc fuel) f limit db =
      follow (list_events codec f limit db)
        (λ t. read_all fuel (record f { cursor = some t }) limit db)

  module _ (f : EventFilterParams) (limit : ℕ) (db : Store) (pos : 1 ≤ limit)
      (d : HasDistinctIds db.events) where
    -- After a full page the rest is what its cursor leaves.
    remaining-next :
        (c : Option CursorKey) (k : CursorKey)
        → next_key limit (remaining c f db) ≡ some k
        → remaining (some k) f db ≡ drop limit (remaining c f db)
    remaining-next c k h = go (take limit (remaining c f db)) refl
      where
        go :
            (page : List NormalizedEvent)
            → take limit (remaining c f db) ≡ page
            → remaining (some k) f db ≡ drop limit (remaining c f db)
        go [] e = absurd (ground (arith, h, e))
        go (ev ∷ evs) e =
            let q : cursor_key (last ev evs) ≡ k = ground (arith, h, e) in
            subst (λ j. remaining (some j) f db ≡ drop limit (remaining c f db)) q
              (select-after_page later later-IsStrictOrder cursor_key (listing f db)
                (listing-IsStrict f db d) c limit e)

    take-ne-nil : (n : ℕ) (rows : List NormalizedEvent) → 1 ≤ n → n < length rows → take n rows ≢ []
    take-ne-nil zero rows p h = absurd (omega arith)
    take-ne-nil (suc n) [] p h = absurd (omega arith)
    take-ne-nil (suc n) (r ∷ rows) p h = λ e. cc

    more_rows :
        (rows : List NormalizedEvent) (k : CursorKey)
        → next_key limit rows ≡ some k
        → limit < length rows
    more_rows rows k h = go (take limit rows) h
      where
        go :
            (page : List NormalizedEvent)
            → key_after (ltb limit (length rows)) page ≡ some k
            → limit < length rows
        go [] e = absurd (cc)
        go (ev ∷ evs) e = ground arith

    last_page : (rows : List NormalizedEvent) → next_key limit rows ≡ none → take limit rows ≡ rows
    last_page rows h = elim (Bool-cases (ltb limit (length rows))) [
      | inl more ↦ absurd (go (take limit rows) refl more)
      | inr done ↦ take_all limit rows (ground arith)
    ]
      where
        go :
            (page : List NormalizedEvent)
            → take limit rows ≡ page
            → ltb limit (length rows) ≡ true
            → ⊥
        go [] e more = take-ne-nil limit rows pos (ground arith) e
        go (ev ∷ evs) e more = ground (arith, h)

    read_all-remaining :
        (fuel : ℕ) (c : Option CursorKey)
        → length (remaining c f db) < fuel
        → read_all fuel (record f { cursor = cursor_of c }) limit db
          ≡ some (map response_of (remaining c f db))
    read_all-remaining zero c h = elim h [ ]
    read_all-remaining (suc fuel) c h =
        let rows = remaining c f db in
        let page = list_events-IsPage f limit db c in
        elim (Option-cases (next_key limit rows)) [
          | inl done ↦ rw (page.1, page.2.2, done, page.2.0, last_page rows done)
          | inr (k, more) ↦
              let rest = remaining-next c k more in
              let fits : length (remaining (some k) f db) < fuel =
                rw rest (omega (arith, length-drop limit rows, more_rows rows k more)) in
              rw (page.1, page.2.2, more, page.2.0, read_all-remaining fuel (some k) fits, rest)
                (ap some (
                  sym (map-append response_of (take limit rows) (drop limit rows))
                  ∙ ap (map response_of) (take-append-drop limit rows)))
        ]

-- For every filter and every page size from 1 on, over a table with distinct ids: a client that
-- starts without a cursor and follows `next_cursor` gets each matching event exactly once, ordered
-- by timestamp and then id, newest first. Fuel above the number of events is enough.
pub read_all-listing :
    (codec : CursorCodec) (f : EventFilterParams) (limit fuel : ℕ) (db : Store)
    → 1 ≤ limit
    → HasDistinctIds db.events
    → length db.events < fuel
    → read_all codec fuel (record f { cursor = none }) limit db
      ≡ some (map response_of (listing f db))
read_all-listing codec f limit fuel db pos d enough =
    let whole : remaining none f db ≡ listing f db = select-true (listing f db) in
    read_all-remaining codec f limit db pos d fuel none (
      rw whole (
        omega (
          arith,
          length-sort later cursor_key (filtered f db.events),
          filtered-length f db.events,
        )))
    ∙ ap (λ rows. some (map response_of rows)) whole
