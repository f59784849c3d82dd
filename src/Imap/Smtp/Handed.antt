-- ===== src/Imap/Smtp/Handed.antt =====
-- How often a mail of src/imap/smtp.py is handed to the relay.
use omnisync.Base.{
  ◌≡◌, ◌≤◌, refl, inl, inr, ℕ, ◌+◌, Option, none, some, [], ◌∷◌, ap, arith, Bool-cases,
  Option-cases, length, length-append,
}
use omnisync.Base.Outcome.{Outcome-cases}
use omnisync.Imap.Smtp.{
  Relay, Smtp, EmailMessage, safe_quit, connect_client, check_client, ensure_client, attempt,
  send_message,
}

handed-connect_client : (relay : Relay) (c : Smtp) → (connect_client relay c).1.handed ≡ c.handed
unfolding connect_client
handed-connect_client relay c = elim (Option-cases (relay.connect c.made)) [
  | inl good ↦ rw (good, connect_client) refl
  | inr (e, bad) ↦ rw (bad, connect_client) refl
]

handed-check_client :
    (relay : Relay) (cached : Option ℕ) (c : Smtp)
    → (check_client relay cached c).1.handed ≡ c.handed
unfolding check_client safe_quit
handed-check_client relay none c = handed-connect_client relay c
handed-check_client relay (some k) c = elim (Option-cases (relay.noop k)) [
  | inl good ↦ rw (good, check_client) refl
  | inr (e, bad) ↦ elim (Bool-cases (relay.is_smtp_error e)) [
    | inl gone ↦ rw (bad, gone, check_client) (handed-connect_client relay (safe_quit c))
    | inr other ↦ rw (bad, other, check_client) refl
  ]
]

-- An attempt hands the message over at most once, and where it succeeds, a session took it.
attempt_once :
    (relay : Relay) (message : EmailMessage) (c : Smtp)
    → let (error, c') = attempt relay message c in
      (length c'.handed ≤ length c.handed + 1)
      × (error ≡ none → (k : ℕ) × (relay.send k message ≡ none))
unfolding attempt ensure_client
attempt_once relay message c =
    let same = handed-check_client relay c.client c in
    let got = check_client relay c.client c in
    elim (Outcome-cases got.0) [
      | inr (e, failed) ↦
          rw (failed, attempt, ensure_client) (omega (arith, ap length same), λ h. absurd (cc))
      | inl (k, found) ↦
          rw (found, attempt, ensure_client)
            (omega (arith, length-append got.1.handed (k ∷ []), ap length same), λ h. (k, h))
    ]

-- A mail is handed to the relay at most twice, and where its sending succeeds, a session took it.
pub send_message_twice :
    (relay : Relay) (message : EmailMessage) (c : Smtp)
    → let (error, c') = send_message relay message c in
      (length c'.handed ≤ length c.handed + 2)
      × (error ≡ none → (k : ℕ) × (relay.send k message ≡ none))
unfolding send_message safe_quit
send_message_twice relay message c =
    let one = attempt_once relay message c in
    let r = attempt relay message c in
    let two = attempt_once relay message (safe_quit r.1) in
    elim (Option-cases r.0) [
      | inl done ↦ rw (done, send_message) (omega (arith, one.0), λ h. one.1 done)
      | inr (e, bad) ↦ elim (Bool-cases (relay.is_smtp_error e)) [
        | inl again ↦ rw (bad, again, send_message) (omega (arith, one.0, two.0), two.1)
        | inr other ↦ rw (bad, other, send_message) (omega (arith, one.0), λ h. absurd (cc))
      ]
    ]
