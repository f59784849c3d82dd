-- ===== src/Imap/Message.antt =====
-- `_parse_message`, `_build_external_id` and `normalize` of src/imap/service.py. The email library is a
-- parameter: a mail has its headers, decoded or raw, and its parts with their decoded texts.
use omnisync.Base.{
  Bool, ◌&&◌, String, Option, none, some, List, str_eq, or_else, text_or, cut, first, if◌then◌else◌,
  Uuid, Timestamp,
}
use omnisync.Events.Model.{NormalizedEventCreate, content_schema_version}
use omnisync.Github.Normalize.{join}

-- A part with its type and its payload, none where that is no bytes.
pub record Part : Type 0 where
  pub content_type : String
  pub payload : Option String

pub record Mail : Type 0 where
  -- `_decode_header` of the two headers, empty for a missing one
  pub subject : String
  pub sender : String
  -- The stripped `Message-ID`, empty for a missing one.
  pub message_id : String
  -- `parsedate_to_datetime` of the date; none for a missing date and for an exception.
  pub date : Option Timestamp
  pub is_multipart : Bool
  pub payload : Option String
  pub parts : List Part

-- The dict of a message.
pub record RawMail : Type 0 where
  pub uid : String
  pub uidvalidity : Option String
  pub message_id : String
  pub host : String
  pub subject : String
  pub sender : String
  pub date : Timestamp
  pub body : String
  pub folder : String

-- The payload of the first plain text, or of a message with a single part.
unfoldable pub body_of : Mail → String
body_of mail =
    if mail.is_multipart
    then elim (first (λ part. str_eq part.content_type "text/plain") mail.parts) [
      | none ↦ ""
      | some part ↦ or_else part.payload ""
    ]
    else or_else mail.payload ""

unfoldable pub parse_message : String → Timestamp → Mail → String → String → Option String → RawMail
unfolding body_of
parse_message host now mail msg_id folder uidvalidity = record {
  uid = msg_id;
  uidvalidity = uidvalidity;
  message_id = mail.message_id;
  host = host;
  subject = mail.subject;
  sender = mail.sender;
  date = or_else mail.date now;
  body = cut 5000 (body_of mail);
  folder = folder;
}

unfoldable pub build_external_id : RawMail → String
build_external_id raw =
    if str_eq raw.message_id ""
    then join "imap-" (
        join raw.host (
          join "-" (
            join raw.folder
              (join "-" (join (text_or (or_else raw.uidvalidity "") "0") (join "-" raw.uid))))))
    else join "imap-mid-" raw.message_id

unfoldable pub normalize : RawMail → Option Uuid → Option NormalizedEventCreate
unfolding build_external_id
normalize raw raw_payload_id =
    let event : NormalizedEventCreate = record {
      external_id = build_external_id raw;
      source = "imap";
      author_id = raw.sender;
      author_name = raw.sender;
      content = join "Subject: " (join raw.subject (join "\n\n" (cut 2000 raw.body)));
      event_type = "email";
      timestamp = raw.date;
      raw_payload_id = raw_payload_id;
      schema_version = content_schema_version;
    } in
    if str_eq raw.subject "" && str_eq raw.body "" then none else some event
