-- ===== src/Events/Query/Page.antt =====
-- What a page of the listing shows.
use omnisync.Base.{
  ◌≡◌, refl, sym, subst, inl, inr, ℕ, zero, suc, ◌≤◌, Option, none, some, List, [], ◌∷◌, take,
  length, ltb, is_some, arith, Bool-cases, Option-cases, length-take-le,
}
use omnisync.Base.Keyset.{sort}
use omnisync.Base.Keyset.Order.{later}
use omnisync.Session.{Store}
use omnisync.Pagination.{CursorCodec, PaginatedResponse}
use omnisync.Events.Model.{NormalizedEvent}
use omnisync.Events.Query.{
  EventFilterParams, EventResponse, response_of, read_cursor, page_of, next_cursor_of, list_events,
  cursor_key, before_cursor, filtered,
}
use omnisync.Integrations.Latest.{length_of_map}

-- A page that a client can go on from.
abbrev pub IsPage : ℕ → PaginatedResponse EventResponse → Type 0
IsPage limit page =
    (page.limit ≡ limit) × (length page.items ≤ limit) × (page.has_more ≡ is_some page.next_cursor)

AreSome :
    (PaginatedResponse EventResponse → Type 0) → Option (PaginatedResponse EventResponse) → Type 0
AreSome P none = Unit
AreSome P (some page) = P page

module _ (codec : CursorCodec) where
  next_cursor-has_more :
      (limit : ℕ) (rows : List NormalizedEvent)
      → 1 ≤ limit
      → ltb limit (length rows)
        ≡ is_some (next_cursor_of codec (ltb limit (length rows)) (take limit rows))
  unfolding next_cursor_of
  next_cursor-has_more zero rows h = absurd (omega (arith, h))
  next_cursor-has_more (suc n) [] h = ground arith
  next_cursor-has_more (suc n) (ev ∷ rows) h =
      elim (Bool-cases (ltb (suc n) (length (ev ∷ rows)))) [
        | inl more ↦ rw more refl
        | inr end ↦ rw end refl
      ]

  page_of-IsPage :
      (limit : ℕ) (rows : List NormalizedEvent)
      → 1 ≤ limit
      → IsPage limit (page_of codec limit rows)
  unfolding page_of
  page_of-IsPage limit rows h = (
    refl,
    subst (λ n. n ≤ limit) (sym (length_of_map response_of (take limit rows)))
        (length-take-le limit rows),
    next_cursor-has_more limit rows h,
  )

  pub list-IsPage :
      (f : EventFilterParams) (limit : ℕ) (db : Store) {page : PaginatedResponse EventResponse}
      → 1 ≤ limit
      → list_events codec f limit db ≡ some page
      → IsPage limit page
  unfolding list_events AreSome
  list-IsPage f limit db {page} h = elim (Option-cases (read_cursor codec f.cursor)) [
    | inl bad ↦ rw (bad, list_events) (λ q. absurd (cc))
    | inr (cursor, good) ↦
        rw (good, list_events)
          (λ q.
            let rows =
              take (suc limit)
                (sort later cursor_key (before_cursor cursor (filtered f db.events))) in
            subst (AreSome (IsPage limit)) q (page_of-IsPage limit rows h))
  ]
