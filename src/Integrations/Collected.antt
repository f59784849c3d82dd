-- ===== src/Integrations/Collected.antt =====
-- What a sync asks a connector for, and the events that its items give.
use omnisync.Base.{
  ◌≡◌, ◌≢◌, refl, sym, ap, ◌∙◌, inl, inr, ◌⊎◌, String, Option, none, some, List, [], ◌∷◌, ◌++◌,
  arith, Bool-cases, Option-cases, str_eq, eq_iff, Uuid, Timestamp,
}
use mathlib.Core.List.{append_assoc, append-nil}
use omnisync.Base.Json.{Json}
use omnisync.Base.Outcome.{Outcome-cases, ok}
use omnisync.Config.{Settings}
use omnisync.Session.{Session, Store}
use omnisync.SyncState.{get_cursor}
use omnisync.SyncLogs.{create_sync_log_own, create_sync_log}
use omnisync.Events.Model.{NormalizedEventCreate}
use omnisync.RawPayloads.{Backend, save_raw_payload}
use omnisync.Integrations.{Connector, TimeText, Registry, get_connector, since_of, collect}

-- The time that a cursor stands for: none where there is no cursor or an empty one.
abbrev pub IsSince : TimeText → Option String → Option Timestamp → Type 0
IsSince texts none since = since ≡ none
IsSince texts (some t) since =
    ((t ≡ "") × (since ≡ none))
    ⊎ ((t ≢ "") × (ts : Timestamp) × (texts.fromisoformat t ≡ some ts) × (since ≡ some ts))

-- The events are those that the items are normalized to, each with a payload's id, in the order
-- of the items, without the items that are no event.
abbrev pub AreNormalized : Connector → List Json → List NormalizedEventCreate → Type 0
AreNormalized connector [] events = events ≡ []
AreNormalized connector (raw ∷ raws) events =
    (i : Uuid) × (((connector.normalize raw i ≡ ok none) × AreNormalized connector raws events)
      ⊎ ((ev : NormalizedEventCreate) × (rest : List NormalizedEventCreate) × (connector.normalize
              raw i
            ≡ ok (some ev))
          × (events ≡ ev ∷ rest)
          × AreNormalized connector raws rest))

module _ (cfg : Settings) (backend : Backend) (texts : TimeText) where
  pub since_of-IsSince :
      (cursor : Option String) {since : Option Timestamp}
      → since_of cfg backend texts cursor ≡ some since
      → IsSince texts cursor since
  unfolding since_of
  since_of-IsSince none {since} h = cc
  since_of-IsSince (some t) {since} h = elim (Bool-cases (str_eq t "")) [
    | inl empty ↦ inl ((eq_iff t "").0 empty, cc (rw empty at h))
    | inr given ↦ elim (Option-cases (texts.fromisoformat t)) [
      | inl bad ↦ absurd (cc (rw (given, bad) at h))
      | inr (ts, read) ↦
          inr
            ((λ e. ground (arith, given, (eq_iff t "").1 e)), ts, read, cc (rw (given, read) at h))
    ]
  ]

  -- The loop adds the events of the items to those that it has.
  pub collect-AreNormalized :
      (connector : Connector) (operation correlation_id : String) (raws : List Json)
      (events : List NormalizedEventCreate) (max_ts : Option Timestamp) (s : Session)
      {found : List NormalizedEventCreate × Option Timestamp}
      → (collect cfg backend texts connector operation correlation_id raws events max_ts s).0
        ≡ ok found
      → (added : List NormalizedEventCreate) × (found.0 ≡ events ++ added)
        × AreNormalized connector raws added
  unfolding collect
  collect-AreNormalized connector operation correlation_id [] events max_ts s {found} = λ h.
      let same : found ≡ (events, max_ts) = cc h in
      (
        [],
        ap (λ (p : List NormalizedEventCreate × Option Timestamp). p.0) same
            ∙ sym (append-nil events),
        refl,
      )
  collect-AreNormalized connector operation correlation_id (raw ∷ raws) events max_ts s {found} =
      let saved = save_raw_payload cfg backend operation raw correlation_id s in
      elim (Outcome-cases (connector.normalize raw saved.0)) [
        | inr (x, failed) ↦ rw (failed, collect) (λ h. absurd (cc))
        | inl (result, done) ↦ elim (Option-cases result) [
          | inl nothing ↦
              rw (done, nothing, collect)
                (λ h.
                  let rest =
                    collect-AreNormalized connector operation correlation_id raws events max_ts
                      saved.1 {found = found} h in
                  (rest.0, rest.1, (saved.0, inl (done ∙ ap ok nothing, rest.2))))
          | inr (ev, some_event) ↦
              rw (done, some_event, collect)
                (λ h.
                  let rest =
                    collect-AreNormalized connector operation correlation_id raws
                      (events ++ ev ∷ []) _ saved.1 {found = found} h in
                  (
                    ev ∷ rest.0,
                    rest.1 ∙ append_assoc events (ev ∷ []) rest.0,
                    (saved.0, inr (ev, rest.0, done ∙ ap ok some_event, refl, rest.2)),
                  ))
        ]
      ]

  -- The events of a sync: those of the items that the connector of the source gave, when it was asked
  -- for what is new since the time of the cursor.
  pub record AreFetched (registry : Registry) (source : String) (before : Store)
      (events : List NormalizedEventCreate) : Type 0 where
    pub connector : Connector
    pub registered : get_connector source registry ≡ ok connector
    pub since : Option Timestamp
    pub since_cursor : IsSince texts (get_cursor source "default" before) since
    pub items : List Json
    pub fetched : connector.fetch since ≡ ok items
    pub normalized : AreNormalized connector items events

  -- The log is no part of what a sync reads.
  pub from_started :
      (registry : Registry) (source operation correlation_id : String) (s : Session)
      (events : List NormalizedEventCreate)
      → AreFetched registry source
          (create_sync_log_own correlation_id operation "started" s).1.db
          events
      → AreFetched registry source s.db events
  unfolding create_sync_log_own create_sync_log get_cursor
  from_started registry source operation correlation_id s events t = record {
    connector = t.connector;
    registered = t.registered;
    since = t.since;
    since_cursor = t.since_cursor;
    items = t.items;
    fetched = t.fetched;
    normalized = t.normalized;
  }
