-- ===== src/Telegram/Client.antt =====
-- `TelegramClient.get_updates` of src/telegram/service.py, after its retries, and the connector. The
-- HTTP library and the validation of an update are parameters.
use omnisync.Base.{
  ℕ, not, ◌==◌, String, Option, none, some, List, [], ◌∷◌, if◌then◌else◌, Uuid, Timestamp,
}
use omnisync.Base.Json
use omnisync.Base.Json.{Json, Items, Fields, get, truthy, get_or_null}
use omnisync.Base.Outcome.{Outcome, ok, raised}
use omnisync.Events.Model.{NormalizedEventCreate}
use omnisync.Telegram.Normalize.{TelegramUpdate, parse_message_to_event}

pub record Response : Type 0 where
  pub status_code : ℕ
  -- The first 200 characters.
  pub text : String
  pub body : Outcome Fields

-- The items that are updates; the others are only logged.
unfoldable pub parse_updates : (Json → Outcome TelegramUpdate) → Items → List TelegramUpdate
parse_updates validate Json.nil = []
parse_updates validate (Json.cons item items) =
    let rest = parse_updates validate items in
    elim (validate item) [ ok u ↦ u ∷ rest | raised e ↦ rest ]

-- `data.get("result", [])`, looped over. A null is no sequence; looping over a text or an object gives
-- no update.
unfoldable pub result_of : (Json → Outcome TelegramUpdate) → Fields → Outcome (List TelegramUpdate)
unfolding parse_updates get
result_of validate data' = elim (get "result" data') [
  | none ↦ ok []
  | some result ↦ elim result [
    | Json.arr items ↦ ok (parse_updates validate items)
    | Json.str t ↦ ok []
    | Json.obj fields ↦ ok []
    | _ ↦ raised "TypeError"
  ]
]

-- What a response gives; the messages of the errors are those of the library's exceptions.
unfoldable pub read_updates :
    (Json → Outcome TelegramUpdate) → Response → Outcome (List TelegramUpdate)
unfolding result_of truthy get_or_null
read_updates validate r =
    let found = r.body in
    if not (r.status_code == 200) then raised r.text else elim found [
      | raised e ↦ raised e
      | ok data' ↦
          if truthy (get_or_null "ok" data') then result_of validate data' else raised "API error"
    ]

-- The connector fetches without an offset.
unfoldable pub fetch :
    (Option ℕ → Outcome (List TelegramUpdate)) → Option Timestamp → Outcome (List TelegramUpdate)
fetch get_updates since = get_updates none

unfoldable pub normalize : Timestamp → TelegramUpdate → Option Uuid → Option NormalizedEventCreate
unfolding parse_message_to_event
normalize now update raw_payload_id = elim update.message [
  | none ↦ none
  | some message ↦ parse_message_to_event now message raw_payload_id
]
