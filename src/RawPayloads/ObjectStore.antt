-- ===== src/RawPayloads/ObjectStore.antt =====
-- src/raw_payloads/storage.py: the URLs of the object store. The store itself is the objects it holds,
-- and the JSON library a parameter.
pub mod Kept
use Prim.Native.Char.{code}
use Prim.Native.String
use omnisync.Base.{
  ℕ, zero, suc, ◌-◌, ◌==◌, Bool, true, false, ◌&&◌, ◌||◌, String, Option, none, some, List, ◌∷◌,
  first, str_eq, if◌then◌else◌,
}
use omnisync.Base.Json.{Json}
use omnisync.DbTypes.Hex.{text_length}
use omnisync.Github.Normalize.{join}

-- Whether the second text begins with the first.
unfoldable pub begins : String → String → Bool
begins String.[] s = true
begins (String.◌∷◌ c p) String.[] = false
begins (String.◌∷◌ c p) (String.◌∷◌ d s) = code c == code d && begins p s

-- `in`, for a text that is not empty.
unfoldable pub occurs : String → String → Bool
unfolding begins
occurs pat String.[] = false
occurs pat (String.◌∷◌ c s) = begins pat (String.◌∷◌ c s) || occurs pat s

-- `replace(pat, "")`; the number is how many characters of an occurrence are still to be dropped.
unfoldable pub removed : String → ℕ → String → String
unfolding begins
removed pat k String.[] = String.[]
removed pat (suc k) (String.◌∷◌ c s) = removed pat k s
removed pat zero (String.◌∷◌ c s) = elim (begins pat (String.◌∷◌ c s)) [
  | true ↦ removed pat (text_length pat - 1) s
  | false ↦ String.◌∷◌ c (removed pat 0 s)
]

-- `split("/", 1)`, none where there is one part only.
unfoldable pub split_once : String → Option (String × String)
unfolding begins
split_once String.[] = none
split_once (String.◌∷◌ c s) =
    let rest = split_once s in
    if begins "/" (String.◌∷◌ c s)
    then some ("", s)
    else elim rest [ none ↦ none | some (a, b) ↦ some (String.◌∷◌ c a, b) ]

pub record S3Storage : Type 0 where
  pub endpoint_url : String
  pub bucket : String

-- The objects by bucket and key, the newest first.
abbrev pub Objects : Type 0
Objects = List (String × String × String)

pub record JsonCodec : Type 0 where
  pub dumps : Json → String
  pub loads : String → Option Json

unfoldable pub object_url : S3Storage → String → String
object_url s3 key = join s3.endpoint_url (join "/" (join s3.bucket (join "/" key)))

unfoldable pub is_object : String → String → String × String × String → Bool
is_object bucket key o = str_eq o.0 bucket && str_eq o.1 key

-- `up` is whether the server takes the object; `none` is the exception.
unfoldable pub save_object :
    S3Storage → JsonCodec → Bool → String → Json → Objects → Option String × Objects
unfolding object_url
save_object s3 json false key payload objects = (none, objects)
save_object s3 json true key payload objects =
    (some (object_url s3 key), (s3.bucket, key, json.dumps payload) ∷ objects)

-- `none` is the exception: an URL without a key, no such object, or a body that is no JSON.
unfoldable pub get_object : S3Storage → JsonCodec → String → Objects → Option Json
unfolding removed split_once is_object
get_object s3 json url objects = elim (split_once (removed (join s3.endpoint_url "/") 0 url)) [
  | none ↦ none
  | some (bucket, key) ↦ elim (first (is_object bucket key) objects) [
    | none ↦ none
    | some o ↦ json.loads o.2
  ]
]
