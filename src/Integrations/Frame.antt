-- ===== src/Integrations/Frame.antt =====
-- What the fetch loop leaves alone.
use omnisync.Base.{
  ◌≡◌, refl, ap, ◌∙◌, inl, inr, String, Option, List, [], ◌∷◌, ◌++◌, Option-cases, first, Timestamp,
}
use omnisync.Base.Json.{Json}
use omnisync.Base.Outcome.{Outcome-cases}
use omnisync.Config.{Settings}
use omnisync.Session.{Session, Store}
use omnisync.Events.Model.{NormalizedEventCreate}
use omnisync.RawPayloads.{Backend, save_raw_payload, is_same_payload}
use omnisync.Integrations.{Connector, TimeText, raise_to, collect}

-- Only raw payloads were written, and nothing was committed.
abbrev pub OnlyPayloads : Session → Session → Type 0
OnlyPayloads s' s =
    (s'.committed ≡ s.committed) × (s'.db ≡ record s.db { raw_payloads = s'.db.raw_payloads })

pub OnlyPayloads-trans : (a b c : Session) → OnlyPayloads a b → OnlyPayloads b c → OnlyPayloads a c
OnlyPayloads-trans a b c h k =
    (h.0 ∙ k.0, h.1 ∙ ap (λ (d : Store). record d { raw_payloads = a.db.raw_payloads }) k.1)

module _ (cfg : Settings) (backend : Backend) where
  pub save_raw_payload_frame :
      (source : String) (payload : Json) (correlation_id : String) (s : Session)
      → OnlyPayloads (save_raw_payload cfg backend source payload correlation_id s).1 s
  unfolding save_raw_payload
  save_raw_payload_frame source payload correlation_id s =
      elim (Option-cases
        (first (is_same_payload source (backend.canonical_hash payload)) s.db.raw_payloads)) [
          | inl missing ↦ rw (missing, save_raw_payload) (refl, refl)
          | inr (r, found) ↦ rw (found, save_raw_payload) (refl, refl)
        ]

  module _ (texts : TimeText) (connector : Connector) (operation correlation_id : String) where
    pub collect_frame :
        (raws : List Json) (events : List NormalizedEventCreate) (max_ts : Option Timestamp)
        (s : Session)
        → OnlyPayloads
            (collect cfg backend texts connector operation correlation_id raws events max_ts s).1
            s
    unfolding collect
    collect_frame [] events max_ts s = (refl, refl)
    collect_frame (raw ∷ raws) events max_ts s =
        let saved = save_raw_payload cfg backend operation raw correlation_id s in
        let here = save_raw_payload_frame operation raw correlation_id s in
        elim (Outcome-cases (connector.normalize raw saved.0)) [
          | inr (e, failed) ↦ rw (failed, collect) here
          | inl (result, done) ↦ elim (Option-cases result) [
            | inl nothing ↦
                rw (done, nothing, collect)
                  (OnlyPayloads-trans
                    (collect cfg backend texts connector operation correlation_id raws events max_ts
                      saved.1).1
                    saved.1 s (collect_frame raws events max_ts saved.1) here)
            | inr (ev, some_event) ↦
                rw (done, some_event, collect)
                  (OnlyPayloads-trans
                    (collect cfg backend texts connector operation correlation_id raws
                      (events ++ ev ∷ []) (raise_to max_ts ev.timestamp) saved.1).1
                    saved.1 s
                    (collect_frame raws (events ++ ev ∷ []) (raise_to max_ts ev.timestamp) saved.1)
                    here)
          ]
        ]
