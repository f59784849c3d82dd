-- ===== src/Jira/Normalize.antt =====
-- `_extract_text` and `JiraConnector.normalize` of src/jira/service.py. `str` of a list or of a dict is a
-- parameter.
use omnisync.Base.{
  Bool, false, String, Option, none, some, List, [], ◌∷◌, ◌++◌, str_eq, or_else, if◌then◌else◌,
  Uuid, Timestamp,
}
use omnisync.Base.Json
use omnisync.Base.Json.{Json, Items, Fields, get, get_or_null, or_value, truthy}
use omnisync.Base.Outcome.{Outcome, ok, raised, and_then}
use omnisync.Events.Model.{NormalizedEventCreate, content_schema_version}
use omnisync.Integrations.{TimeText}
use omnisync.Github.Normalize.{join, replace_z}
use omnisync.Telegram.Webhook.{str_of}

-- `node.get("type") == "text" and "text" in node`
unfoldable pub own_text : Fields → List Json
unfolding get get_or_null
own_text node =
    let is_text : Bool = elim (get_or_null "type" node) [
      | Json.str t ↦ str_eq t "text"
      | _ ↦ false
    ] in
    elim (get "text" node) [ none ↦ [] | some text ↦ if is_text then text ∷ [] else [] ]

unfoldable mutual
  unfolding own_text

  -- The parts of a node; the loop over a text or over a dict finds none, and one over a number or
  -- None is a TypeError.
  pub walk : Json → Outcome (List Json)
  walk Json.null = ok []
  walk (Json.bool b) = ok []
  walk (Json.num n) = ok []
  walk (Json.str t) = ok []
  walk (Json.arr js) = walk_items js
  walk (Json.other t) = ok []
  walk (Json.obj node) = and_then (walk_content node) (λ parts. ok (own_text node ++ parts))

  -- The children of the first entry "content".
  pub walk_content : Fields → Outcome (List Json)
  walk_content Json.end = ok []
  walk_content (Json.field name value rest) =
      let found = walk_children value in
      let others = walk_content rest in if str_eq name "content" then found else others

  pub walk_children : Json → Outcome (List Json)
  walk_children Json.null = raised "TypeError"
  walk_children (Json.bool b) = raised "TypeError"
  walk_children (Json.num n) = raised "TypeError"
  walk_children (Json.str t) = ok []
  walk_children (Json.arr js) = walk_items js
  walk_children (Json.obj node) = ok []
  walk_children (Json.other t) = raised "TypeError"

  pub walk_items : Items → Outcome (List Json)
  walk_items Json.nil = ok []
  walk_items (Json.cons j js) =
      let parts = walk j in
      let others = walk_items js in and_then parts (λ ps. and_then others (λ qs. ok (ps ++ qs)))

-- `" ".join(parts)`
unfoldable pub join_parts : List Json → Outcome String
join_parts [] = ok ""
join_parts (part ∷ []) = elim part [ Json.str t ↦ ok t | _ ↦ raised "TypeError" ]
join_parts (part ∷ next ∷ rest) =
    let joined = join_parts (next ∷ rest) in
    elim part [
      | Json.str t ↦ and_then joined (λ u. ok (join t (join " " u)))
      | _ ↦ raised "TypeError"
    ]

unfoldable pub extract_text : Json → Outcome String
unfolding walk join_parts
extract_text (Json.str t) = ok t
extract_text (Json.obj node) = and_then (walk (Json.obj node)) join_parts
extract_text _ = ok ""

-- `x or {}`, of which `get` is asked.
unfoldable pub dict_or_empty : Json → Outcome Fields
unfolding truthy
dict_or_empty x =
    if truthy x then elim x [ Json.obj d ↦ ok d | _ ↦ raised "AttributeError" ] else ok Json.end

-- `d.get(name, "")`
unfoldable pub get_or_empty : String → Fields → Json
unfolding get
get_or_empty name d = elim (get name d) [ none ↦ Json.str "" | some v ↦ v ]

-- A field of the event is a text, or its validation fails.
unfoldable pub as_text : Json → Outcome String
as_text (Json.str t) = ok t
as_text _ = raised "ValidationError"

module _ (texts : TimeText) (repr : Json → String) where
  open texts use {fromisoformat}

  -- The time of the call stays where `updated` is false or no date. A number has no `replace`.
  unfoldable pub issue_time : Timestamp → Json → Outcome Timestamp
  unfolding replace_z truthy
  issue_time now updated =
      if truthy updated
      then elim updated [
        | Json.str t ↦ ok (or_else (fromisoformat (replace_z t)) now)
        | _ ↦ raised "AttributeError"
      ]
      else ok now

  unfoldable pub issue_content : Json → Json → Json → String → String
  unfolding str_of
  issue_content status key summary description =
      let head = join "[" (
        join (str_of repr status)
          (join "] " (join (str_of repr key) (join ": " (str_of repr summary))))) in
      if str_eq description "" then head else join head (join "\n\n" description)

  -- From the fields of an issue on.
  unfoldable pub issue_event :
      Timestamp → Json → Fields → Option Uuid → Outcome (Option NormalizedEventCreate)
  unfolding extract_text dict_or_empty get_or_empty get_or_null or_value as_text issue_time
      issue_content str_of
  issue_event now key fields raw_payload_id =
      and_then (extract_text (get_or_null "description" fields)) (λ description.
        and_then (dict_or_empty (get_or_null "status" fields)) (λ status.
          and_then (dict_or_empty (get_or_null "reporter" fields)) (λ reporter.
            let author_id =
              or_value (get_or_empty "accountId" reporter) (get_or_empty "emailAddress" reporter) in
            and_then (issue_time now (get_or_null "updated" fields)) (λ timestamp.
              and_then (as_text author_id) (λ id.
                and_then (as_text (or_value (get_or_empty "displayName" reporter) author_id))
                  (λ name. ok (
                    some (record {
                      external_id = join "jira-" (str_of repr key);
                      source = "jira";
                      author_id = id;
                      author_name = name;
                      content =
                          issue_content (get_or_empty "name" status) key
                            (get_or_empty "summary" fields) description;
                      event_type = "issue";
                      timestamp = timestamp;
                      raw_payload_id = raw_payload_id;
                      schema_version = content_schema_version;
                    }))))))))

  unfoldable pub normalize : Timestamp → Json → Option Uuid → Outcome (Option NormalizedEventCreate)
  unfolding issue_event get_or_null truthy get
  normalize now (Json.obj raw) raw_payload_id =
      let key = get_or_null "key" raw in
      if truthy key
      then elim (get "fields" raw) [
        | none ↦ issue_event now key Json.end raw_payload_id
        | some fields ↦ elim fields [
          | Json.obj d ↦ issue_event now key d raw_payload_id
          | _ ↦ raised "AttributeError"
        ]
      ]
      else ok none
  normalize now _ raw_payload_id = raised "AttributeError"
