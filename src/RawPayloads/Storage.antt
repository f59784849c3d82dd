-- ===== src/RawPayloads/Storage.antt =====
-- A payload that was saved is read back, and saved once.
use omnisync.Base.{
  ◌≡◌, ◌≢◌, refl, sym, subst, ◌∙◌, inl, inr, true, String, none, some, [], ◌∷◌, ◌++◌, arith,
  Bool-cases, Option-cases, eq_iff, first, first-append, All, ltb, Uuid, Timestamp, tick, draw,
  World,
}
use omnisync.Base.Json.{Json, coerced}
use omnisync.Base.Rows.{find-append}
use omnisync.Config.{Settings}
use omnisync.Session.{Session}
use omnisync.RawPayloads.Model.{RawPayload}
use omnisync.RawPayloads.{
  Backend, is_same_payload, place, new_payload, save_raw_payload, get_raw_payload,
  load_payload_content,
}

module _ (cfg : Settings) (backend : Backend) (source : String) (payload : Json) where
  new_payload_same :
      (correlation_id : String) (i : Uuid) (now received : Timestamp)
      → is_same_payload source
          (backend.canonical_hash payload)
          (new_payload cfg backend source payload correlation_id i now received)
        ≡ true
  unfolding is_same_payload new_payload
  new_payload_same correlation_id i now received = ground (
    arith,
    eq_iff source source,
    eq_iff (backend.canonical_hash payload) (backend.canonical_hash payload),
  )

  -- An offloaded body can be fetched, and its URL is not empty.
  abbrev pub KeepsBody : String → Timestamp → Type 0
  KeepsBody correlation_id now =
      (url : String)
      → backend.save_object source correlation_id now (coerced payload) ≡ some url
      → (url ≢ "") × (backend.get_object url ≡ some (coerced payload))

  new_payload_loads :
      (correlation_id : String) (i : Uuid) (now received : Timestamp)
      → KeepsBody correlation_id now
      → load_payload_content backend
          (new_payload cfg backend source payload correlation_id i now received)
        ≡ some (coerced payload)
  unfolding load_payload_content new_payload place
  new_payload_loads correlation_id i now received keeps =
      let stored = backend.save_object source correlation_id now (coerced payload) in
      elim (Bool-cases (ltb cfg.s3_payload_threshold (backend.encoded_size (coerced payload)))) [
        | inl big ↦ elim (Option-cases stored) [
          | inl failed ↦ rw (big, failed) refl
          | inr (url, kept) ↦ rw (big, kept) (ground (arith, eq_iff url "", keeps url kept))
        ]
        | inr small ↦ rw small refl
      ]

  abbrev with_row : RawPayload → World → Session → Session
  with_row r w s = record s {
    db = record s.db { raw_payloads = s.db.raw_payloads ++ r ∷ [] };
    world = w;
  }

  saved_new :
      (correlation_id : String) (s : Session)
      → first (is_same_payload source (backend.canonical_hash payload)) s.db.raw_payloads ≡ none
      → (received : Timestamp) × (w : World) × (save_raw_payload cfg backend source payload
            correlation_id s
          ≡ (
            s.world.uuids 0,
            with_row
                (new_payload cfg backend source payload correlation_id
                  (s.world.uuids 0)
                  (s.world.clock 0)
                  received)
                w
                s,
          ))
  unfolding save_raw_payload
  saved_new correlation_id s missing =
      elim (Bool-cases (ltb cfg.s3_payload_threshold (backend.encoded_size (coerced payload)))) [
        | inl big ↦
            (s.world.clock 1, tick (draw (tick s.world)), rw (missing, big, save_raw_payload) refl)
        | inr small ↦
            (s.world.clock 0, tick (draw s.world), rw (missing, small, save_raw_payload) refl)
      ]

  saved_again :
      (again : String) (s : Session) {r : RawPayload}
      → first (is_same_payload source (backend.canonical_hash payload)) s.db.raw_payloads ≡ some r
      → save_raw_payload cfg backend source payload again s ≡ (r.id, s)
  unfolding save_raw_payload
  saved_again again s h = rw (h, save_raw_payload) refl

  -- What is to be shown of an id and a session.
  abbrev IsSaved : String → Uuid × Session → Type 0
  IsSaved again (i, s') =
      ((r : RawPayload) × (get_raw_payload i s'.db ≡ some r)
        × (load_payload_content backend r ≡ some (coerced payload)))
      × (save_raw_payload cfg backend source payload again s' ≡ (i, s'))

  -- A payload that is not stored yet for the source, with a new UUID to draw and an object store that
  -- keeps what it took: it is saved under the returned id, and loading that row gives the payload with
  -- the values that JSON has no form for as their texts, also if the store refused it. Saving it again,
  -- in whatever run, returns the same id and changes nothing.
  pub save_raw_payload_lem :
      (correlation_id again : String) (s : Session)
      → first (is_same_payload source (backend.canonical_hash payload)) s.db.raw_payloads ≡ none
      → All (λ r. r.id ≢ s.world.uuids 0) s.db.raw_payloads
      → KeepsBody correlation_id (s.world.clock 0)
      → let (i, s') = save_raw_payload cfg backend source payload correlation_id s in
        ((r : RawPayload) × (get_raw_payload i s'.db ≡ some r)
          × (load_payload_content backend r ≡ some (coerced payload)))
        × (save_raw_payload cfg backend source payload again s' ≡ (i, s'))
  unfolding get_raw_payload new_payload
  save_raw_payload_lem correlation_id again s missing fresh keeps =
      let i = s.world.uuids 0 in
      let now = s.world.clock 0 in
      let saved = saved_new correlation_id s missing in
      let row = new_payload cfg backend source payload correlation_id i now saved.0 in
      let there : first (is_same_payload source (backend.canonical_hash payload))
            (s.db.raw_payloads ++ row ∷ [])
          ≡ some row =
        first-append (is_same_payload source (backend.canonical_hash payload)) s.db.raw_payloads
          (row ∷ [])
        ∙ rw (missing, new_payload_same correlation_id i now saved.0) refl in
      subst (IsSaved again) (sym saved.2) (
        (
          row,
          find-append (λ (r : RawPayload). r.id) i row s.db.raw_payloads fresh ∙ ground arith,
          new_payload_loads correlation_id i now saved.0 keeps,
        ),
        saved_again again (with_row row saved.1 s) {r = row} there,
      )
