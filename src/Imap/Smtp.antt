-- ===== src/Imap/Smtp.antt =====
-- src/imap/smtp.py, and `send_mail` of src/imap/router.py: the kept session with the relay, and the sending of
-- a mail with one more attempt. The relay is a parameter, which answers each session by its number. The
-- lock makes the calls follow each other.
pub mod Handed
use omnisync.Base.{
  ◌≡◌, ◌≤◌, refl, inl, inr, ◌⊎◌, ℕ, suc, ◌+◌, Bool, true, false, String, Option, none, some, List,
  [], ◌∷◌, ◌++◌, arith, Bool-cases, Option-cases, length, str_eq, if◌then◌else◌, or_else, text_or,
}
use omnisync.Base.Outcome.{Outcome, Outcome-cases, ok, raised}
use omnisync.Github.Normalize.{join}

pub record EmailMessage : Type 0 where
  pub from_addr : String
  pub to : String
  pub subject : String
  pub body : String

-- The exceptions of the calls, none where they succeed.
pub record Relay : Type 0 where
  -- `connect`, and `login` where there is a user
  pub connect : ℕ → Option String
  pub noop : ℕ → Option String
  pub send : ℕ → EmailMessage → Option String
  -- `SMTPException` and `OSError`
  pub is_smtp_error : String → Bool

-- The cached session, how many there were, and the sessions that a message was handed to.
pub record Smtp : Type 0 where
  pub client : Option ℕ
  pub made : ℕ
  pub handed : List ℕ

-- `_safe_quit`
unfoldable pub safe_quit : Smtp → Smtp
safe_quit c = record c { client = none }

unfoldable pub connect_client : Relay → Smtp → Outcome ℕ × Smtp
connect_client relay c = elim (relay.connect c.made) [
  | some e ↦ (raised e, record c { made = suc c.made })
  | none ↦ (ok c.made, record c { client = some c.made; made = suc c.made })
]

unfoldable pub check_client : Relay → Option ℕ → Smtp → Outcome ℕ × Smtp
unfolding safe_quit connect_client
check_client relay none c = connect_client relay c
check_client relay (some k) c = elim (relay.noop k) [
  | none ↦ (ok k, c)
  | some e ↦ if relay.is_smtp_error e then connect_client relay (safe_quit c) else (raised e, c)
]

unfoldable pub ensure_client : Relay → Smtp → Outcome ℕ × Smtp
unfolding check_client
ensure_client relay c = check_client relay c.client c

-- One attempt: the session, then the message; none is a message that was sent.
unfoldable pub attempt : Relay → EmailMessage → Smtp → Option String × Smtp
unfolding ensure_client
attempt relay message c =
    let (got, c') = ensure_client relay c in
    elim got [
      | raised e ↦ (some e, c')
      | ok k ↦ (relay.send k message, record c' { handed = c'.handed ++ k ∷ [] })
    ]

unfoldable pub send_message : Relay → EmailMessage → Smtp → Option String × Smtp
unfolding attempt safe_quit
send_message relay message c =
    let (failed, c') = attempt relay message c in
    let again = attempt relay message (safe_quit c') in
    elim failed [
      | none ↦ (none, c')
      | some e ↦ if relay.is_smtp_error e then again else (some e, c')
    ]

pub record SmtpSettings : Type 0 where
  pub host : String
  pub from_addr : String
  pub username : String

join_comma : String → List String → String
join_comma address [] = address
join_comma address (next ∷ rest) = join address (join ", " (join_comma next rest))

to_text : List String → String
unfolding join_comma
to_text [] = ""
to_text (address ∷ rest) = join_comma address rest

-- What stands in the way of a mail, or its message.
unfoldable pub compose :
    SmtpSettings → List String → String → String → Option String → Outcome EmailMessage
unfolding to_text
compose i to subject body from_addr =
    let sender = text_or (or_else from_addr "") (text_or i.from_addr i.username) in
    if str_eq i.host ""
    then raised "SMTP_HOST is not configured"
    else if str_eq sender ""
    then raised "No sender address configured (SMTP_FROM)"
    else ok (record { from_addr = sender; to = to_text to; subject = subject; body = body })

-- The answer of the endpoint: 503 for a relay that is not configured, the exception of the relay, or the
-- number of recipients.
pub data SendReply : Type 0 where
  sent : ℕ → SendReply
  not_configured : String → SendReply
  failed : String → SendReply

unfoldable pub send_mail :
    Relay → SmtpSettings → List String → String → String → Option String → Smtp → SendReply × Smtp
unfolding compose send_message
send_mail relay i to subject body from_addr c = elim (compose i to subject body from_addr) [
  | raised detail ↦ (not_configured detail, c)
  | ok message ↦
      let (error, c') = send_message relay message c in
      (elim error [ none ↦ sent (length to) | some e ↦ failed e ], c')
]
