-- ===== src/Imap/Kept.antt =====
-- The connection of src/imap/service.py after a fetch.
use omnisync.Base.{
  ◌≡◌, refl, ap, subst, ◌∙◌, inl, inr, ◌⊎◌, ℕ, String, Option, none, some, List, Bool-cases,
  Option-cases, str_eq, eq_iff, if◌then◌else◌, Timestamp, World,
}
use omnisync.Base.Outcome.{Outcome, Outcome-cases, ok, raised}
use omnisync.Imap.Message.{RawMail}
use omnisync.Imap.Connection.{
  Server, ImapClient, safe_logout, new_connection, check_connection, ensure_connection, fetch_over,
  drop_broken, fetch_messages,
}

-- A connection to fetch over: the one at hand, which answers, or a new one.
abbrev pub IsLive : Server → ImapClient → ℕ → Type 0
IsLive server c k =
    ((c.conn ≡ some k) × (server.noop k ≡ ok "OK")) ⊎ ((k ≡ c.made) × (server.connect k ≡ none))

-- What a fetch leaves: a live connection after an answer, none after an error of the network.
abbrev pub IsLeft : Server → ImapClient → Outcome (List RawMail) → ImapClient → Type 0
IsLeft server c (ok mails) c' = (k : ℕ) × (c'.conn ≡ some k) × IsLive server c k
IsLeft server c (raised e) c' = if server.is_network e then c'.conn ≡ none else Unit

-- What the step before it gives.
abbrev IsReady : Server → ImapClient → Outcome ℕ → ImapClient → Type 0
IsReady server c (ok k) c' = (c'.conn ≡ some k) × IsLive server c k
IsReady server c (raised e) c' = Unit

new_connection-IsReady :
    (server : Server) (c c0 : ImapClient)
    → c0.made ≡ c.made
    → let (got, c') = new_connection server c0 in IsReady server c got c'
unfolding new_connection
new_connection-IsReady server c c0 h = elim (Option-cases (server.connect c0.made)) [
  | inr (e, failed) ↦ rw (failed, new_connection) tt
  | inl made ↦ rw (made, new_connection) (refl, inr (h, made))
]

check_connection-IsReady :
    (server : Server) (cached : Option ℕ) (c : ImapClient)
    → c.conn ≡ cached
    → let (got, c') = check_connection server cached c in IsReady server c got c'
unfolding check_connection
check_connection-IsReady server none c q = new_connection-IsReady server c c refl
check_connection-IsReady server (some k) c q = elim (Outcome-cases (server.noop k)) [
  | inr (e, failed) ↦ elim (Bool-cases (server.is_network e)) [
    | inl dead ↦
        rw (failed, dead, check_connection) (new_connection-IsReady server c (safe_logout c) refl)
    | inr other ↦ rw (failed, other, check_connection) tt
  ]
  | inl (status, answered) ↦ elim (Bool-cases (str_eq status "OK")) [
    | inl good ↦
        rw (answered, good, check_connection)
          (q, inl (q, answered ∙ ap ok ((eq_iff status "OK").0 good)))
    | inr bad ↦
        rw (answered, bad, check_connection) (new_connection-IsReady server c (safe_logout c) refl)
  ]
]

module _ (server : Server) (folder : String) (since : Option Timestamp) (limit : ℕ)
    (w : World) where
  drop_broken-IsLeft :
      (c c' : ImapClient) (k : ℕ) (o : Outcome (List RawMail))
      → IsReady server c (ok k) c'
      → IsLeft server c o (drop_broken server o c')
  unfolding drop_broken
  drop_broken-IsLeft c c' k (ok mails) h = (k, h.0, h.1)
  drop_broken-IsLeft c c' k (raised e) h = elim (Bool-cases (server.is_network e)) [
    | inl dead ↦ rw dead refl
    | inr other ↦ rw other tt
  ]

  drop_broken-failed :
      (c c' : ImapClient) (e : String)
      → IsLeft server c (raised e) (drop_broken server (raised e) c')
  unfolding drop_broken
  drop_broken-failed c c' e = elim (Bool-cases (server.is_network e)) [
    | inl dead ↦ rw dead refl
    | inr other ↦ rw other tt
  ]

  -- A fetch that answers leaves the connection that it used in the cache: the cached one, which had
  -- answered NOOP with OK, or a new one. A fetch that raises an error of the network leaves none, so
  -- that the next fetch connects again.
  pub fetch_messages-IsLeft :
      (c : ImapClient)
      → let (outcome, c') = fetch_messages server folder since limit w c in
        IsLeft server c outcome c'
  unfolding fetch_messages ensure_connection
  fetch_messages-IsLeft c =
      let ready = check_connection-IsReady server c.conn c refl in
      let got = check_connection server c.conn c in
      elim (Outcome-cases got.0) [
        | inr (e, failed) ↦
            rw (failed, fetch_messages, ensure_connection) (drop_broken-failed c got.1 e)
        | inl (k, found) ↦
            rw (found, fetch_messages, ensure_connection)
              (drop_broken-IsLeft c got.1 k (fetch_over server k folder since limit w)
                (subst (λ o. IsReady server c o got.1) found ready))
      ]
