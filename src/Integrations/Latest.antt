-- ===== src/Integrations/Latest.antt =====
-- The newest timestamp of a sync, and the cursor it leaves.
use omnisync.Base.{
  ℕ, ◌≡◌, refl, sym, ap, ◌∙◌, inl, inr, String, Option, none, some, List, [], ◌∷◌, ◌++◌, arith,
  Option-cases, map, length, max, Timestamp,
}
use omnisync.Base.Json.{Json}
use omnisync.Base.Outcome.{ok, Outcome-cases}
use omnisync.Base.Rows.{HasUniqueIds}
use omnisync.Config.{Settings}
use omnisync.Session.{Session}
use omnisync.Events.Model.{NormalizedEventCreate}
use omnisync.Events.Upsert.{upsert_events_bulk}
use omnisync.RawPayloads.{Backend, save_raw_payload}
use omnisync.SyncState.{get_cursor, set_cursor}
use omnisync.SyncState.Cursors.{state_id, get_cursor-set_cursor}
use omnisync.Integrations.{Connector, TimeText, raise_to, collect, upsert_if_any, advance}

-- The latest timestamp of some events.
abbrev pub newest : List NormalizedEventCreate → Option Timestamp
newest [] = none
newest (e ∷ es) = elim (newest es) [ none ↦ some e.timestamp | some t ↦ some (max e.timestamp t) ]

newest-append :
    (es : List NormalizedEventCreate) (e : NormalizedEventCreate)
    → newest (es ++ e ∷ []) ≡ raise_to (newest es) e.timestamp
unfolding raise_to
newest-append [] e = refl
newest-append (e' ∷ es) e = elim (Option-cases (newest es)) [
  | inl nothing ↦ ground (arith, newest-append es e, nothing)
  | inr (t, latest) ↦ ground (arith, newest-append es e, latest)
]

-- The cursor after a sync: the text of the newest timestamp, or the old one if nothing came.
abbrev pub advanced : TimeText → Option Timestamp → Option String → Option String
advanced texts none old = old
advanced texts (some t) old = some (texts.isoformat t)

pub upsert_if_any_eq :
    (es : List NormalizedEventCreate) (correlation_id : String) (s : Session)
    → upsert_if_any es correlation_id s ≡ upsert_events_bulk es (some correlation_id) s
unfolding upsert_if_any upsert_events_bulk
upsert_if_any_eq [] correlation_id s = refl
upsert_if_any_eq (e ∷ es) correlation_id s = refl

pub set_cursor-events :
    (source : String) (cursor : Option String) (stream : String) (s : Session)
    → (set_cursor source cursor stream s).db.events ≡ s.db.events
unfolding set_cursor
set_cursor-events source cursor stream s = ground arith

pub length_of_map {ℓ κ} :
    {A : Type ℓ} {B : Type κ} (f : A → B) (xs : List A) → length (map f xs) ≡ length xs
length_of_map f [] = refl
length_of_map f (x ∷ xs) = ap ℕ.suc (length_of_map f xs)

module _ (cfg : Settings) (backend : Backend) (texts : TimeText) where
  pub advance-events :
      (source : String) (t : Option Timestamp) (s : Session)
      → (advance cfg backend texts source t s).db.events ≡ s.db.events
  unfolding advance
  advance-events source none s = refl
  advance-events source (some t) s = set_cursor-events source (some (texts.isoformat t)) "default" s

  pub advance-get_cursor :
      (source : String) (t : Option Timestamp) (s : Session)
      → HasUniqueIds state_id s.db.sync_states
      → get_cursor source "default" (advance cfg backend texts source t s).db
        ≡ advanced texts t (get_cursor source "default" s.db)
  unfolding advance
  advance-get_cursor source none s u = refl
  advance-get_cursor source (some t) s u =
      (get_cursor-set_cursor source (some (texts.isoformat t)) "default" s u).0

  -- The fetched items were normalized to these events, and this is the newest time.
  pub collect-newest :
      (connector : Connector) (operation correlation_id : String) (raws : List Json)
      (events : List NormalizedEventCreate) (max_ts : Option Timestamp) (s : Session)
      {found : List NormalizedEventCreate × Option Timestamp}
      → newest events ≡ max_ts
      → (collect cfg backend texts connector operation correlation_id raws events max_ts s).0
        ≡ ok found
      → newest found.0 ≡ found.1
  unfolding collect
  collect-newest connector operation correlation_id [] events max_ts s {found} h = λ q.
      let e : found ≡ (events, max_ts) = cc q in
      ap (λ (p : List NormalizedEventCreate × Option Timestamp). newest p.0) e
      ∙ h
      ∙ ap (λ (p : List NormalizedEventCreate × Option Timestamp). p.1) (sym e)
  collect-newest connector operation correlation_id (raw ∷ raws) events max_ts s {found} h =
      let saved = save_raw_payload cfg backend operation raw correlation_id s in
      elim (Outcome-cases (connector.normalize raw saved.0)) [
        | inr (x, failed) ↦ rw (failed, collect) (λ q. absurd (cc))
        | inl (result, done) ↦ elim (Option-cases result) [
          | inl nothing ↦
              rw (done, nothing, collect)
                (collect-newest connector operation correlation_id raws events max_ts saved.1
                  {found = found} h)
          | inr (ev, some_event) ↦
              rw (done, some_event, collect)
                (collect-newest connector operation correlation_id raws (events ++ ev ∷ [])
                  (raise_to max_ts ev.timestamp) saved.1 {found = found}
                  (newest-append events ev ∙ ap (λ m. raise_to m ev.timestamp) h))
        ]
      ]
