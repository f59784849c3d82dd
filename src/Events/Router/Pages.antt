-- ===== src/Events/Router/Pages.antt =====
-- What an answered listing shows.
use omnisync.Base.{◌≡◌, refl, ◌∙◌, inl, inr, ℕ, ◌≤◌, ◌&&◌, leb, arith, Bool-cases, Option-cases}
use omnisync.Auth.{Answer, accepted, refused}
use omnisync.Auth.Model.{User}
use omnisync.Auth.Reply.{answered, as_user}
use omnisync.Session.{Store}
use omnisync.Pagination.{CursorCodec, PaginatedResponse}
use omnisync.Events.Query.{EventFilterParams, EventResponse}
use omnisync.Events.Query.Page.{IsPage, list-IsPage}
use omnisync.Events.Query
use omnisync.Events.Router.{list_events}

module _ (codec : CursorCodec) where
  -- A listing that is answered: the caller is a valid user, the limit is from 1 to 100, the page has
  -- at most that many events, and it has a next cursor exactly when it says that there is more.
  pub list_events-answered :
      (user : Answer User) (f : EventFilterParams) (limit : ℕ) (db : Store)
      {page : PaginatedResponse EventResponse}
      → list_events codec user f limit db ≡ answered page
      → ((u : User) × (user ≡ accepted u)) × (1 ≤ limit) × (limit ≤ 100) × IsPage limit page
  unfolding list_events as_user
  list_events-answered (refused e) f limit db = λ h. absurd (cc)
  list_events-answered (accepted u) f limit db {page} =
      elim (Bool-cases (leb 1 limit && leb limit 100)) [
        | inr out ↦ rw (out, list_events) (λ h. absurd (cc))
        | inl good ↦ elim (Option-cases (Query.list_events codec f limit db)) [
          | inl bad ↦ rw (good, bad, list_events) (λ h. absurd (cc))
          | inr (p, found) ↦
              rw (good, found, list_events)
                (λ h.
                  let low : 1 ≤ limit = ground (arith, good) in
                  (
                    (u, refl),
                    low,
                    ground (arith, good),
                    list-IsPage codec f limit db {page = page} low (found ∙ (cc)),
                  ))
        ]
      ]
