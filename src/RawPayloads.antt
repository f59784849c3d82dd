-- ===== src/RawPayloads.antt =====
-- src/raw_payloads/service.py and tasks.py. The hash of a payload, its size in bytes as JSON, and the
-- object store are parameters.
pub mod Model
pub mod ObjectStore
pub mod Detail
pub mod Storage
mod Tests
use omnisync.Base.{
  ℕ, ◌*◌, ◌-◌, Bool, true, false, not, ◌&&◌, String, Option, none, some, List, [], ◌∷◌, ◌++◌, ltb,
  ◌==◌, str_eq, first, select, length, if◌then◌else◌, Uuid, Timestamp, second, draw, tick,
}
use omnisync.Base.Json.{Json, coerced}
use omnisync.Config.{Settings}
use omnisync.Session.{Session, Store, commit, close}
use omnisync.RawPayloads.Model.{RawPayload}

-- What the service asks of others: `_canonical_hash`, the length of the encoded text, and
-- `save_object` and `get_object` of the store, where `none` is the exception.
pub record Backend : Type 0 where
  pub canonical_hash : Json → String
  pub encoded_size : Json → ℕ
  pub save_object : String → String → Timestamp → Json → Option String
  pub get_object : String → Option Json

unfoldable pub is_same_payload : String → String → RawPayload → Bool
is_same_payload source content_hash r =
    str_eq r.source source
    && (elim r.content_hash [ none ↦ false | some h ↦ str_eq h content_hash ])

-- Where the body goes: the URL and the column `payload`.
unfoldable pub place :
    Settings → Backend → String → String → Timestamp → Json → Option String × Option Json
place cfg backend source correlation_id now payload =
    let stored = backend.save_object source correlation_id now payload in
    if ltb cfg.s3_payload_threshold (backend.encoded_size payload)
    then elim stored [ some url ↦ (some url, none) | none ↦ (none, some payload) ]
    else (none, some payload)

unfoldable pub new_payload :
    Settings → Backend → String → Json → String → Uuid → Timestamp → Timestamp → RawPayload
unfolding place coerced
new_payload cfg backend source payload correlation_id i now received =
    let (url, stored) = place cfg backend source correlation_id now (coerced payload) in
    record {
      id = i;
      source = source;
      payload = stored;
      content_hash = some (backend.canonical_hash payload);
      correlation_id = correlation_id;
      received_at = received;
      storage_url = url;
    }

-- The clock is read for the key only where the body is offloaded.
unfoldable pub save_raw_payload :
    Settings → Backend → String → Json → String → Session → Uuid × Session
unfolding is_same_payload new_payload
save_raw_payload cfg backend source payload correlation_id s =
    elim (first (is_same_payload source (backend.canonical_hash payload)) s.db.raw_payloads) [
      | some r ↦ (r.id, s)
      | none ↦
          let now = s.world.clock 0 in
          let w =
            if ltb cfg.s3_payload_threshold (backend.encoded_size (coerced payload))
            then tick s.world
            else s.world in
          (
            w.uuids 0,
            record s {
              db = record s.db {
                raw_payloads =
                    s.db.raw_payloads
                    ++ new_payload cfg backend source payload correlation_id (w.uuids 0) now
                        (w.clock 0)
                      ∷ [];
              };
              world = tick (draw w);
            },
          )
    ]

unfoldable pub get_raw_payload : Uuid → Store → Option RawPayload
get_raw_payload i db = first (λ r. r.id == i) db.raw_payloads

-- The empty URL is false.
unfoldable pub load_payload_content : Backend → RawPayload → Option Json
load_payload_content backend r = elim r.storage_url [
  | none ↦ r.payload
  | some url ↦ if str_eq url "" then r.payload else backend.get_object url
]

abbrev day : ℕ
day = 86400 * second

-- The number of deleted rows, and the session after the commit.
unfoldable pub cleanup_old_payloads : Settings → Session → ℕ × Session
cleanup_old_payloads cfg s =
    let cutoff = s.world.clock 0 - cfg.raw_payload_ttl_days * day in
    let old = select (λ r. ltb r.received_at cutoff) s.db.raw_payloads in
    let kept = select (λ r. not (ltb r.received_at cutoff)) s.db.raw_payloads in
    (
      length old,
      close (commit (record s { db = record s.db { raw_payloads = kept }; world = tick s.world })),
    )
