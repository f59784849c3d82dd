-- ===== src/Imap/Connection.antt =====
-- `IMAPClient` of src/imap/service.py: the connection that is kept, and the fetch of messages. The server
-- is a parameter, which answers each connection by its number. The lock makes the calls follow each
-- other.
use omnisync.Base.{
  ℕ, suc, ◌-◌, ◌==◌, Bool, String, Option, none, some, List, [], ◌∷◌, length, drop, str_eq,
  if◌then◌else◌, Timestamp, World, tick,
}
use omnisync.Base.Outcome.{Outcome, ok, raised}
use omnisync.Github.Normalize.{join}
use omnisync.Imap.Message.{Mail, RawMail, parse_message}

pub record Server : Type 0 where
  pub host : String
  -- The exception of a new connection or of its login.
  pub connect : ℕ → Option String
  pub noop : ℕ → Outcome String
  pub select : ℕ → String → Option String
  pub uidvalidity : ℕ → Option String
  pub search : ℕ → String → Outcome (String × List String)
  -- The status, and the message where there is one.
  pub fetch : ℕ → String → Outcome (String × Option Mail)
  -- `abort`, `error` and `OSError`
  pub is_network : String → Bool
  -- `strftime("%d-%b-%Y")`
  pub day : Timestamp → String

-- The cached connection, and how many there were.
pub record ImapClient : Type 0 where
  pub conn : Option ℕ
  pub made : ℕ

-- `_safe_logout`
unfoldable pub safe_logout : ImapClient → ImapClient
safe_logout c = record c { conn = none }

unfoldable pub new_connection : Server → ImapClient → Outcome ℕ × ImapClient
new_connection server c = elim (server.connect c.made) [
  | some e ↦ (raised e, record c { made = suc c.made })
  | none ↦ (ok c.made, record { conn = some c.made; made = suc c.made })
]

-- An exception of NOOP that is not of the network is not caught.
unfoldable pub check_connection : Server → Option ℕ → ImapClient → Outcome ℕ × ImapClient
unfolding safe_logout new_connection
check_connection server none c = new_connection server c
check_connection server (some k) c = elim (server.noop k) [
  | raised e ↦ if server.is_network e then new_connection server (safe_logout c) else (raised e, c)
  | ok status ↦ if str_eq status "OK" then (ok k, c) else new_connection server (safe_logout c)
]

unfoldable pub ensure_connection : Server → ImapClient → Outcome ℕ × ImapClient
unfolding check_connection
ensure_connection server c = check_connection server c.conn c

unfoldable pub criteria : Server → Option Timestamp → String
criteria server none = "ALL"
criteria server (some t) = join "(SINCE \"" (join (server.day t) "\")")

-- `msg_ids[-limit:]` where the limit is not 0
unfoldable pub newest_ids : ℕ → List String → List String
newest_ids limit ids = if limit == 0 then ids else drop (length ids - limit) ids

-- The loop over the ids; what has no message is left out.
unfoldable pub fetch_each :
    Server → ℕ → String → Option String → List String → World → Outcome (List RawMail)
unfolding parse_message
fetch_each server k folder uidvalidity [] w = ok []
fetch_each server k folder uidvalidity (i ∷ ids) w =
    let rest = fetch_each server k folder uidvalidity ids in
    elim (server.fetch k i) [
      | raised e ↦ raised e
      | ok (status, found) ↦
          if str_eq status "OK"
          then elim found [
            | none ↦ rest w
            | some mail ↦ elim (rest (tick w)) [
              | raised e ↦ raised e
              | ok mails ↦
                  ok (parse_message server.host (w.clock 0) mail i folder uidvalidity ∷ mails)
            ]
          ]
          else rest w
    ]

-- With a connection at hand.
unfoldable pub fetch_over :
    Server → ℕ → String → Option Timestamp → ℕ → World → Outcome (List RawMail)
unfolding criteria newest_ids fetch_each
fetch_over server k folder since limit w = elim (server.select k folder) [
  | some e ↦ raised e
  | none ↦ elim (server.search k (criteria server since)) [
    | raised e ↦ raised e
    | ok (status, ids) ↦
        if str_eq status "OK"
        then fetch_each server k folder (server.uidvalidity k) (newest_ids limit ids) w
        else ok []
  ]
]

-- A network error drops the connection.
unfoldable pub drop_broken : Server → Outcome (List RawMail) → ImapClient → ImapClient
unfolding safe_logout
drop_broken server (ok mails) c = c
drop_broken server (raised e) c = if server.is_network e then safe_logout c else c

unfoldable pub fetch_messages :
    Server
    → String
    → Option Timestamp
    → ℕ
    → World
    → ImapClient
    → Outcome (List RawMail) × ImapClient
unfolding ensure_connection fetch_over drop_broken
fetch_messages server folder since limit w c =
    let (got, c') = ensure_connection server c in
    elim got [
      | raised e ↦ (raised e, drop_broken server (raised e) c')
      | ok k ↦
          let outcome = fetch_over server k folder since limit w in
          (outcome, drop_broken server outcome c')
    ]
