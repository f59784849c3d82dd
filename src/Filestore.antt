-- ===== src/Filestore.antt =====
-- src/filestore/service.py: the objects of a bucket that changed since a time, and their events. The store is
-- a parameter, as the pages that its paginator gives.
mod Tests
use Prim.Native.Char.{code}
use Prim.Native.String
use omnisync.Base.{
  ℕ, ◌==◌, Bool, true, false, not, String, Option, none, some, List, [], ◌∷◌, ◌++◌, map, select,
  leb, str_eq, or_else, if◌then◌else◌, Uuid, Timestamp,
}
use omnisync.Base.Outcome.{Outcome, ok, raised}
use omnisync.Events.Model.{NormalizedEventCreate, content_schema_version}
use omnisync.Github.Normalize.{join, decimal}

-- An object as the store lists it; what may be missing is an option.
pub record Listed : Type 0 where
  pub key : String
  pub size : Option ℕ
  pub etag : Option String
  pub last_modified : Option Timestamp

-- The dict of an object.
pub record StoredObject : Type 0 where
  pub key : String
  pub size : ℕ
  pub etag : String
  pub last_modified : Option Timestamp

-- `.strip('"')`, from the left and from the right.
unfoldable pub lstrip_quotes : String → String
lstrip_quotes String.[] = ""
lstrip_quotes (String.◌∷◌ c s) =
    let rest = lstrip_quotes s in if code c == 34 then rest else String.◌∷◌ c s

unfoldable pub rstrip_quotes : String → String
rstrip_quotes String.[] = ""
rstrip_quotes (String.◌∷◌ c s) =
    let rest = rstrip_quotes s in
    if code c == 34 then (if str_eq rest "" then "" else String.◌∷◌ c rest) else String.◌∷◌ c rest

-- `since and last_modified and last_modified <= since`, in the negative.
unfoldable pub is_changed : Option Timestamp → Listed → Bool
is_changed none o = true
is_changed (some since) o = elim o.last_modified [ none ↦ true | some t ↦ not (leb t since) ]

unfoldable pub object_of : Listed → StoredObject
unfolding lstrip_quotes rstrip_quotes
object_of o = record {
  key = o.key;
  size = or_else o.size 0;
  etag = lstrip_quotes (rstrip_quotes (or_else o.etag ""));
  last_modified = o.last_modified;
}

-- A page without `Contents` is empty.
unfoldable pub list_objects : List (List Listed) → Option Timestamp → List StoredObject
unfolding is_changed object_of
list_objects [] since = []
list_objects (page ∷ pages) since =
    map object_of (select (is_changed since) page) ++ list_objects pages since

unfoldable pub normalize :
    String → Timestamp → StoredObject → Option Uuid → Option NormalizedEventCreate
unfolding decimal
normalize bucket now raw raw_payload_id =
    let event : NormalizedEventCreate = record {
      external_id = join "filestore-" (join bucket (join "-" raw.key));
      source = "filestore";
      author_id = bucket;
      author_name = bucket;
      content = join "File: " (join raw.key (join " (" (join (decimal raw.size) " bytes)")));
      event_type = "file";
      timestamp = or_else raw.last_modified now;
      raw_payload_id = raw_payload_id;
      schema_version = content_schema_version;
    } in
    if str_eq raw.key "" then none else some event
