-- ===== src/Telegram/Normalize.antt =====
-- `parse_message_to_event` of src/telegram/utils.py, with the updates of src/telegram/schemas.py. The
-- id of a chat is negative for a group, so that its text is kept in place of the number.
use omnisync.Base.{
  ℕ, ◌*◌, ◌==◌, Bool, String, Option, none, some, str_eq, or_else, text_or, if◌then◌else◌, second,
  Uuid, Timestamp,
}
use omnisync.Events.Model.{NormalizedEventCreate, content_schema_version}
use omnisync.Github.Normalize.{join, decimal}

pub record TelegramUser : Type 0 where
  pub id : ℕ
  pub is_bot : Option Bool
  pub first_name : Option String
  pub last_name : Option String
  pub username : Option String

pub record TelegramChat : Type 0 where
  -- `str` of the id
  pub id : String
  pub type : Option String
  pub title : Option String

pub record TelegramMessage : Type 0 where
  pub message_id : ℕ
  pub from_user : Option TelegramUser
  pub chat : Option TelegramChat
  pub date : Option ℕ
  pub text : Option String

pub record TelegramUpdate : Type 0 where
  pub update_id : ℕ
  pub message : Option TelegramMessage

-- None and the empty text are both false.
unfoldable pub text_of : Option String → String
text_of t = or_else t ""

-- `" ".join(name_parts)`, where a part is left out if it is empty; empty where there is none.
name_parts : String → String → String
name_parts first last =
    if str_eq first "" then last else if str_eq last "" then first else join first (join " " last)

unfoldable pub author_name : TelegramUser → String
unfolding text_of name_parts decimal
author_name u =
    text_or (name_parts (text_of u.first_name) (text_of u.last_name))
      (text_or (text_of u.username) (decimal u.id))

unfoldable pub author_of : Option TelegramUser → String × String
unfolding author_name decimal
author_of none = ("", "")
author_of (some u) = (decimal u.id, author_name u)

-- 0 is false; a date is a count of seconds.
unfoldable pub message_time : Timestamp → Option ℕ → Timestamp
message_time now none = now
message_time now (some date) = if date == 0 then now else date * second

unfoldable pub chat_title : Option TelegramChat → String
unfolding text_of
chat_title none = ""
chat_title (some chat) =
    let title = text_of chat.title in
    if str_eq title "" then join "[chat:" (join chat.id "] ") else join "[" (join title "] ")

-- The event of a message with a text.
unfoldable pub message_event : Timestamp → TelegramMessage → Option Uuid → NormalizedEventCreate
unfolding author_of message_time chat_title text_of decimal
message_event now message raw_payload_id = record {
  external_id = decimal message.message_id;
  source = "telegram";
  author_id = (author_of message.from_user).0;
  author_name = (author_of message.from_user).1;
  content = join (chat_title message.chat) (text_of message.text);
  event_type = "message";
  timestamp = message_time now message.date;
  raw_payload_id = raw_payload_id;
  schema_version = content_schema_version;
}

-- None for a message without a text, before the clock is read.
unfoldable pub parse_message_to_event :
    Timestamp → TelegramMessage → Option Uuid → Option NormalizedEventCreate
unfolding message_event text_of
parse_message_to_event now message raw_payload_id =
    let event = message_event now message raw_payload_id in
    if str_eq (text_of message.text) "" then none else some event
