-- ===== src/Telegram/Poll/Collect.antt =====
-- What the loop of the polling task finds: the highest id, and an event for each message with a text.
use omnisync.Base.{
  ◌⊎◌, any, true, ◌==◌, ◌≡◌, refl, sym, ap, subst, ◌∙◌, inl, inr, ℕ, suc, ◌≤◌, false, String,
  Option, none, some, List, [], ◌∷◌, arith, All, first, first-append, Bool-cases, Option-cases, ltb,
  str_eq, Uuid, Timestamp,
}
use omnisync.Base.Json.{Json}
use omnisync.Config.{Settings}
use omnisync.Session.{Session}
use omnisync.Events.Model.{NormalizedEventCreate}
use omnisync.Events.Upsert.{Key, same_key, key_of}
use omnisync.Events.Upsert.Keys.{input_of, same_key_refl}
use omnisync.RawPayloads.{Backend, save_raw_payload}
use omnisync.Integrations.Frame.{OnlyPayloads, OnlyPayloads-trans, save_raw_payload_frame}
use omnisync.Github.Normalize.{decimal}
use omnisync.Telegram.Normalize.{
  TelegramUpdate, TelegramMessage, text_of, message_event, parse_message_to_event,
}
use omnisync.Telegram.Webhook.{after_parse}
use omnisync.Telegram.Poll.{raise_id, append_if, take_update, collect_updates}

-- The update is one of those up to the highest id.
abbrev pub IsCovered : Option ℕ → ℕ → Type 0
IsCovered none n = n ≡ suc n
IsCovered (some m) n = n ≤ m

raise_id-covers : (m : Option ℕ) (n : ℕ) → IsCovered (raise_id m n) n
unfolding raise_id
raise_id-covers none n = omega arith
raise_id-covers (some m) n = elim (Bool-cases (ltb m n)) [
  | inl e ↦ rw e (omega arith)
  | inr e ↦ rw e (ground (arith, e))
]

raise_id-keeps : (m : Option ℕ) (n k : ℕ) → IsCovered m k → IsCovered (raise_id m n) k
unfolding raise_id
raise_id-keeps none n k h = absurd (omega arith)
raise_id-keeps (some m) n k h = elim (Bool-cases (ltb m n)) [
  | inl e ↦ rw e (ground (arith, e, h))
  | inr e ↦ rw e h
]

raise_id-cases :
    (max_id : Option ℕ) (n : ℕ) {m : ℕ} → raise_id max_id n ≡ some m → (max_id ≡ some m) ⊎ (n ≡ m)
unfolding raise_id
raise_id-cases none n {m} h = inr (cc)
raise_id-cases (some k) n {m} h = elim (Bool-cases (ltb k n)) [
  | inl e ↦ inr (cc (rw e at h))
  | inr e ↦ inl (rw e at h)
]

-- A message with a text has its event among these.
abbrev pub HasEvent : List NormalizedEventCreate → TelegramUpdate → Type 0
HasEvent events u =
    (message : TelegramMessage)
    → u.message ≡ some message
    → str_eq (text_of message.text) "" ≡ false
    → (e : NormalizedEventCreate) × (input_of ("telegram", decimal message.message_id) events
        ≡ some e)

message_event-key :
    (now : Timestamp) (message : TelegramMessage) (raw : Option Uuid)
    → key_of (message_event now message raw) ≡ ("telegram", decimal message.message_id)
unfolding message_event
message_event-key now message raw = refl

append_if-keeps :
    (k : Key) (events : List NormalizedEventCreate) (o : Option NormalizedEventCreate)
    {e : NormalizedEventCreate}
    → input_of k events ≡ some e
    → input_of k (append_if events o) ≡ some e
unfolding append_if
append_if-keeps k events none {e} h = h
append_if-keeps k events (some x) {e} h =
    ground (arith, first-append (λ d. same_key (key_of d) k) events (x ∷ []), h)

append_if-adds :
    (events : List NormalizedEventCreate) (e : NormalizedEventCreate)
    → (d : NormalizedEventCreate) × (input_of (key_of e) (append_if events (some e)) ≡ some d)
unfolding append_if
append_if-adds events e =
    let p = λ (d : NormalizedEventCreate). same_key (key_of d) (key_of e) in
    elim (Option-cases (first p events)) [
      | inl missing ↦
          (e, first-append p events (e ∷ []) ∙ rw (missing, same_key_refl (key_of e)) refl)
      | inr (d, found) ↦ (d, first-append p events (e ∷ []) ∙ rw found refl)
    ]

after_parse_frame :
    (event : Option NormalizedEventCreate) (s' s : Session)
    → OnlyPayloads s' s
    → OnlyPayloads (after_parse event s') s
unfolding after_parse
after_parse_frame none s' s h = h
after_parse_frame (some e) s' s h = h

module _ (cfg : Settings) (backend : Backend) (dump : TelegramUpdate → Json)
    (correlation_id : String) where
  -- What the loop has found covers the updates, and what it had found before.
  abbrev pub IsCollected :
      List NormalizedEventCreate
      → Option ℕ
      → List NormalizedEventCreate
      → Option ℕ
      → List TelegramUpdate
      → Type 0
  IsCollected events max_id events' max_id' us =
      ((k : ℕ) → IsCovered max_id k → IsCovered max_id' k)
      × ((k : Key) (e : NormalizedEventCreate)
          → input_of k events ≡ some e
          → input_of k events' ≡ some e)
      × All (λ u. IsCovered max_id' u.update_id × HasEvent events' u) us

  abbrev taken :
      TelegramUpdate
      → Option TelegramMessage
      → List NormalizedEventCreate
      → Session
      → List NormalizedEventCreate × Session
  taken u message events s = take_update cfg backend dump correlation_id u message events s

  taken-keeps :
      (u : TelegramUpdate) (message : Option TelegramMessage) (events : List NormalizedEventCreate)
      (s : Session) (k : Key) (e : NormalizedEventCreate)
      → input_of k events ≡ some e
      → input_of k (taken u message events s).0 ≡ some e
  unfolding take_update
  taken-keeps u none events s k e h = h
  taken-keeps u (some m) events s k e h = append_if-keeps k events _ {e = e} h

  taken-HasEvent :
      (u : TelegramUpdate) (message : Option TelegramMessage) (events : List NormalizedEventCreate)
      (s : Session) {m : TelegramMessage}
      → message ≡ some m
      → str_eq (text_of m.text) "" ≡ false
      → (e : NormalizedEventCreate) × (input_of
            ("telegram", decimal m.message_id)
            (taken u message events s).0
          ≡ some e)
  unfolding take_update parse_message_to_event
  taken-HasEvent u none events s {m} q t = absurd (cc)
  taken-HasEvent u (some x) events s {m} q t =
      let same : x ≡ m = cc in
      let (i, s') = save_raw_payload cfg backend "telegram_poll" (dump u) correlation_id s in
      let e = message_event (s'.world.clock 0) x (some i) in
      let given : str_eq (text_of x.text) "" ≡ false =
        subst (λ (y : TelegramMessage). str_eq (text_of y.text) "" ≡ false) (sym same) t in
      let added = append_if-adds events e in
      let key : key_of e ≡ ("telegram", decimal m.message_id) =
        message_event-key (s'.world.clock 0) x (some i)
        ∙ ap (λ (y : TelegramMessage). ("telegram", decimal y.message_id)) same in
      (
        added.0,
        rw given (subst (λ k. input_of k (append_if events (some e)) ≡ some added.0) key added.1),
      )

  taken_frame :
      (u : TelegramUpdate) (message : Option TelegramMessage) (events : List NormalizedEventCreate)
      (s : Session)
      → OnlyPayloads (taken u message events s).1 s
  unfolding take_update
  taken_frame u none events s = (refl, refl)
  taken_frame u (some m) events s =
      let (i, s') = save_raw_payload cfg backend "telegram_poll" (dump u) correlation_id s in
      after_parse_frame (parse_message_to_event (s'.world.clock 0) m (some i)) s' s
        (save_raw_payload_frame cfg backend "telegram_poll" (dump u) correlation_id s)

  -- A step of the loop in front of what the rest of it covers.
  step-IsCollected :
      (u : TelegramUpdate) (us : List TelegramUpdate)
      (events events1 events2 : List NormalizedEventCreate) (max_id max_id2 : Option ℕ)
      → ((k : Key) (e : NormalizedEventCreate)
          → input_of k events ≡ some e
          → input_of k events1 ≡ some e)
      → HasEvent events1 u
      → IsCollected events1 (raise_id max_id u.update_id) events2 max_id2 us
      → IsCollected events max_id events2 max_id2 (u ∷ us)
  step-IsCollected u us events events1 events2 max_id max_id2 grows has rest = (
    (λ k h. rest.0 k (raise_id-keeps max_id u.update_id k h)),
    (λ k e h. rest.1 k e (grows k e h)),
    (
      (
        rest.0 u.update_id (raise_id-covers max_id u.update_id),
        (λ message q t. let d = has message q t in (d.0, rest.1 _ d.0 d.1)),
      ),
      rest.2,
    ),
  )

  pub collect_updates-IsCollected :
      (us : List TelegramUpdate) (events : List NormalizedEventCreate) (max_id : Option ℕ)
      (s : Session)
      → let ((events', max_id'), s') =
          collect_updates cfg backend dump correlation_id us events max_id s in
        IsCollected events max_id events' max_id' us
  unfolding collect_updates
  collect_updates-IsCollected [] events max_id s = ((λ k h. h), (λ k e h. h), tt)
  collect_updates-IsCollected (u ∷ us) events max_id s =
      let (events1, s1) = taken u u.message events s in
      let rest =
        collect_updates cfg backend dump correlation_id us events1 (raise_id max_id u.update_id)
          s1 in
      step-IsCollected u us events events1 rest.0.0 max_id rest.0.1
        (taken-keeps u u.message events s)
        (λ m q t. taken-HasEvent u u.message events s {m = m} q t)
        (collect_updates-IsCollected us events1 (raise_id max_id u.update_id) s1)

  pub collect_updates_frame :
      (us : List TelegramUpdate) (events : List NormalizedEventCreate) (max_id : Option ℕ)
      (s : Session)
      → OnlyPayloads (collect_updates cfg backend dump correlation_id us events max_id s).1 s
  unfolding collect_updates
  collect_updates_frame [] events max_id s = (refl, refl)
  collect_updates_frame (u ∷ us) events max_id s =
      let (events1, s1) = taken u u.message events s in
      OnlyPayloads-trans
        (collect_updates cfg backend dump correlation_id us events1 (raise_id max_id u.update_id)
          s1).1
        s1 s (collect_updates_frame us events1 (raise_id max_id u.update_id) s1)
        (taken_frame u u.message events s)

  -- The highest id that the loop ends with is the one it began with, or the id of an update.
  pub collect_updates_reached :
      (us : List TelegramUpdate) (events : List NormalizedEventCreate) (max_id : Option ℕ)
      (s : Session) {m : ℕ}
      → (collect_updates cfg backend dump correlation_id us events max_id s).0.1 ≡ some m
      → (max_id ≡ some m) ⊎ (any (λ u. u.update_id == m) us ≡ true)
  unfolding collect_updates
  collect_updates_reached [] events max_id s {m} h = inl h
  collect_updates_reached (u ∷ us) events max_id s {m} h =
      let (events1, s1) = taken u u.message events s in
      elim (collect_updates_reached us events1 (raise_id max_id u.update_id) s1 {m = m} h) [
        | inr later ↦ inr (ground (arith, later))
        | inl raised ↦ elim (raise_id-cases max_id u.update_id {m = m} raised) [
          | inl before ↦ inl before
          | inr here ↦ inr (ground (arith, here))
        ]
      ]
