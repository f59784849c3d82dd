-- ===== src/RawPayloads/ObjectStore/Kept.antt =====
-- An object is found again by the URL that saving it returned.
use omnisync.Base.{
  ℕ, Timestamp, subst, ◌≡◌, ◌≢◌, refl, sym, ap, ◌∙◌, inl, inr, suc, ◌-◌, true, false, String, none,
  some, first, ◌∷◌, arith, Bool-cases, str_eq, eq_iff,
}
use omnisync.Base.Json.{Json, coerced}
use omnisync.Config.{Settings}
use omnisync.RawPayloads.{Backend}
use omnisync.RawPayloads.Storage.{KeepsBody}
use omnisync.DbTypes.Hex.{text_length}
use omnisync.Github.Normalize.{join}
use omnisync.RawPayloads.ObjectStore.{
  S3Storage, Objects, JsonCodec, begins, occurs, removed, split_once, object_url, is_object,
  save_object, get_object,
}

begins-join : (p s : String) → begins p (join p s) ≡ true
unfolding begins
begins-join String.[] s = refl
begins-join (String.◌∷◌ c p) s = ground (arith, begins-join p s)

removed-join : (pat p s : String) → removed pat (text_length p) (join p s) ≡ removed pat 0 s
unfolding removed
removed-join pat String.[] s = refl
removed-join pat (String.◌∷◌ c p) s = removed-join pat p s

removed-absent : (pat s : String) → occurs pat s ≡ false → removed pat 0 s ≡ s
unfolding removed occurs
removed-absent pat String.[] h = refl
removed-absent pat (String.◌∷◌ c s) h = elim (Bool-cases (begins pat (String.◌∷◌ c s))) [
  | inl here ↦ absurd (ground (arith, here, h))
  | inr absent ↦ rw (absent, removed) (ap (String.◌∷◌ c) (removed-absent pat s (ground (arith, h))))
]

-- What stands behind the pattern is what is left.
removed-front : (pat s : String) → pat ≢ "" → occurs pat s ≡ false → removed pat 0 (join pat s) ≡ s
unfolding removed
removed-front String.[] s nonempty h = absurd (nonempty refl)
removed-front (String.◌∷◌ c p) s nonempty h =
    rw (begins-join (String.◌∷◌ c p) s, removed)
      (let same : suc (text_length p) - 1 ≡ text_length p = omega arith in
        ap (λ k. removed (String.◌∷◌ c p) k (join p s)) same
        ∙ removed-join (String.◌∷◌ c p) p s
        ∙ removed-absent (String.◌∷◌ c p) s h)

join_assoc : (a b c : String) → join (join a b) c ≡ join a (join b c)
join_assoc String.[] b c = refl
join_assoc (String.◌∷◌ x a) b c = ap (String.◌∷◌ x) (join_assoc a b c)

join-slash_nonempty : (a : String) → join a "/" ≢ ""
join-slash_nonempty String.[] = λ e. absurd (cc e)
join-slash_nonempty (String.◌∷◌ x a) = λ e. absurd (cc e)

split_once-join :
    (b k : String) → occurs "/" b ≡ false → split_once (join b (join "/" k)) ≡ some (b, k)
unfolding split_once occurs begins
split_once-join String.[] k h = refl
split_once-join (String.◌∷◌ c b) k h = elim (Bool-cases (begins "/" (String.◌∷◌ c b))) [
  | inl slash ↦ absurd (ground (arith, slash, h))
  | inr other ↦
      let rest : occurs "/" b ≡ false = ground (arith, h) in
      rw (split_once-join b k rest) (ground (arith, other))
]

is_object_own : (b k v : String) → is_object b k (b, k, v) ≡ true
unfolding is_object
is_object_own b k v = ground (arith, eq_iff b b, eq_iff k k)

is_object_other : (b k other v : String) → other ≢ k → is_object b other (b, k, v) ≡ false
unfolding is_object
is_object_other b k other v differs = elim (Bool-cases (str_eq k other)) [
  | inl same ↦ absurd (differs (sym ((eq_iff k other).0 same)))
  | inr apart ↦ ground (arith, apart)
]

module _ (s3 : S3Storage) (json : JsonCodec) where
  -- The bucket and the key can be read off the URL.
  abbrev pub IsPlain : String → Type 0
  IsPlain key =
      (occurs "/" s3.bucket ≡ false)
      × (occurs (join s3.endpoint_url "/") (join s3.bucket (join "/" key)) ≡ false)

  get_object-url :
      (key : String) (objects : Objects)
      → IsPlain key
      → get_object s3 json (object_url s3 key) objects
        ≡ elim (first (is_object s3.bucket key) objects) [ none ↦ none | some o ↦ json.loads o.2 ]
  unfolding get_object object_url
  get_object-url key objects (flat, once) =
      let path = join s3.bucket (join "/" key) in
      let prefix = join s3.endpoint_url "/" in
      let read : split_once (removed prefix 0 (join s3.endpoint_url (join "/" path)))
          ≡ some (s3.bucket, key) =
        ap (λ u. split_once (removed prefix 0 u)) (sym (join_assoc s3.endpoint_url "/" path))
        ∙ ap split_once (removed-front prefix path (join-slash_nonempty s3.endpoint_url) once)
        ∙ split_once-join s3.bucket key flat in
      rw (read, get_object) refl

  -- Where the bucket has no slash, the address of the endpoint does not occur in the paths of two
  -- objects, and what was encoded is decoded: saving a payload under a key, when the server takes it,
  -- returns a URL by which the payload is read back, and the object of the other key is read as
  -- before.
  pub get_object-save_object :
      (key other : String) (payload : Json) (objects : Objects)
      → other ≢ key
      → IsPlain key
      → IsPlain other
      → json.loads (json.dumps payload) ≡ some payload
      → let (url, after) = save_object s3 json true key payload objects in
        (url ≡ some (object_url s3 key))
        × (get_object s3 json (object_url s3 key) after ≡ some payload)
        × (get_object s3 json (object_url s3 other) after
            ≡ get_object s3 json (object_url s3 other) objects)
  unfolding save_object
  get_object-save_object key other payload objects differs plain apart decodes = (
    refl,
    get_object-url key ((s3.bucket, key, json.dumps payload) ∷ objects) plain
        ∙ rw (is_object_own s3.bucket key (json.dumps payload)) decodes,
    get_object-url other ((s3.bucket, key, json.dumps payload) ∷ objects) apart
        ∙ rw (is_object_other s3.bucket key other (json.dumps payload) differs) refl
        ∙ sym (get_object-url other objects apart),
  )

-- The key of a payload: `f"{source}/{correlation_id}/{now}.json"`.
abbrev pub payload_key : (Timestamp → String) → String → String → Timestamp → String
payload_key isoformat source correlation_id now =
    join source (join "/" (join correlation_id (join "/" (join (isoformat now) ".json"))))

-- The object store as the service uses it, for the objects before the save and those at the load.
abbrev pub s3_backend :
    S3Storage
    → JsonCodec
    → (Timestamp → String)
    → (Json → String)
    → (Json → ℕ)
    → Objects
    → Objects
    → Backend
s3_backend s3 json isoformat hash size before held = record {
  canonical_hash = hash;
  encoded_size = size;
  save_object = λ source correlation_id now payload.
      (save_object s3 json true (payload_key isoformat source correlation_id now) payload before).0;
  get_object = λ url. get_object s3 json url held;
}

url_nonempty : (s3 : S3Storage) (key : String) → s3.endpoint_url ≢ "" → object_url s3 key ≢ ""
unfolding object_url
url_nonempty s3 key given = go s3.endpoint_url given
  where
    go : (t : String) → t ≢ "" → join t (join "/" (join s3.bucket (join "/" key))) ≢ ""
    go String.[] h = absurd (h refl)
    go (String.◌∷◌ c t) h = λ e. absurd (cc e)

-- It keeps the body that the service stored.
pub s3_backend-KeepsBody :
    (cfg : Settings) (s3 : S3Storage) (json : JsonCodec) (isoformat : Timestamp → String)
    (hash : Json → String) (size : Json → ℕ) (before : Objects) (source correlation_id : String)
    (payload : Json) (now : Timestamp)
    → s3.endpoint_url ≢ ""
    → IsPlain s3 json (payload_key isoformat source correlation_id now)
    → json.loads (json.dumps (coerced payload)) ≡ some (coerced payload)
    → let key = payload_key isoformat source correlation_id now in
      let held = (save_object s3 json true key (coerced payload) before).1 in
      KeepsBody cfg
        (s3_backend s3 json isoformat hash size before held)
        source
        payload
        correlation_id
        now
unfolding save_object
s3_backend-KeepsBody cfg s3 json isoformat hash size before source correlation_id payload now given
      plain decodes url saved =
    let key = payload_key isoformat source correlation_id now in
    let held = (s3.bucket, key, json.dumps (coerced payload)) ∷ before in
    let same : object_url s3 key ≡ url = cc in
    subst (λ u. (u ≢ "") × (get_object s3 json u held ≡ some (coerced payload))) same
      (
        url_nonempty s3 key given,
        get_object-url s3 json key held plain
            ∙ rw (is_object_own s3.bucket key (json.dumps (coerced payload))) decodes,
      )
