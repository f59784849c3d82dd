-- ===== src/Telegram/Poll.antt =====
-- src/telegram/tasks.py: the task that polls the updates from the acknowledged one on.
pub mod Offset
pub mod Collect
use Prim.Native.Char.{code}
use omnisync.Base.{
  ℕ, suc, ◌+◌, ◌-◌, ◌*◌, Bool, ◌&&◌, String, Option, none, some, List, [], ◌∷◌, ◌++◌, length, ltb,
  leb, str_eq, if◌then◌else◌,
}
use omnisync.Base.Json.{Json}
use omnisync.Base.Outcome.{Outcome, ok, raised}
use omnisync.Config.{Settings}
use omnisync.Session.{Session}
use omnisync.Events.Model.{NormalizedEventCreate}
use omnisync.Events.Upsert.{upsert_events_bulk}
use omnisync.RawPayloads.{Backend, save_raw_payload}
use omnisync.SyncState.{get_cursor, set_cursor}
use omnisync.Tasks.{Attempts, run_task, logged}
use omnisync.Github.Normalize.{decimal}
use omnisync.Telegram.Normalize.{TelegramUpdate, TelegramMessage, parse_message_to_event}
use omnisync.Telegram.Webhook.{after_parse}

-- `int` of a text of digits, from the value of the digits before it. Of other texts Python reads those
-- with blanks, a sign or underscores, which the task never writes as its cursor.
unfoldable pub int_from : ℕ → String → Option ℕ
int_from acc String.[] = some acc
int_from acc (String.◌∷◌ c s) =
    let rest = int_from (acc * 10 + (code c - 48)) s in
    if leb 48 (code c) && leb (code c) 57 then rest else none

unfoldable pub int_of : String → Option ℕ
unfolding int_from
int_of s = if str_eq s "" then none else int_from 0 s

-- `int(cursor) if cursor else None`; the outer none is the ValueError.
unfoldable pub offset_of : Option String → Option (Option ℕ)
unfolding int_of
offset_of none = some none
offset_of (some cursor) =
    if str_eq cursor ""
    then some none
    else elim (int_of cursor) [ none ↦ none | some n ↦ some (some n) ]

-- `if max_update_id is None or update.update_id > max_update_id`
unfoldable pub raise_id : Option ℕ → ℕ → Option ℕ
raise_id none n = some n
raise_id (some m) n = if ltb m n then some n else some m

-- `if event_data: event_data_list.append(event_data)`
unfoldable pub append_if :
    List NormalizedEventCreate → Option NormalizedEventCreate → List NormalizedEventCreate
append_if events none = events
append_if events (some e) = events ++ e ∷ []

-- `set_cursor(session, "telegram", str(max_update_id + 1))`
unfoldable pub acknowledge : Option ℕ → Session → Session
unfolding set_cursor decimal
acknowledge none s = s
acknowledge (some m) s = set_cursor "telegram" (some (decimal (suc m))) "default" s

unfoldable pub store_if_any : List NormalizedEventCreate → String → Session → ℕ × Session
unfolding upsert_events_bulk
store_if_any [] correlation_id s = (0, s)
store_if_any (e ∷ es) correlation_id s =
    let (results, s') = upsert_events_bulk (e ∷ es) (some correlation_id) s in (length results, s')

module _ (cfg : Settings) (backend : Backend) (dump : TelegramUpdate → Json) where
  -- What the body of the loop does to `event_data_list` for an update and its message.
  unfoldable pub take_update :
      String
      → TelegramUpdate
      → Option TelegramMessage
      → List NormalizedEventCreate
      → Session
      → List NormalizedEventCreate × Session
  unfolding save_raw_payload parse_message_to_event after_parse append_if
  take_update correlation_id u none events s = (events, s)
  take_update correlation_id u (some message) events s =
      let (raw_payload_id, s') =
        save_raw_payload cfg backend "telegram_poll" (dump u) correlation_id s in
      let event = parse_message_to_event (s'.world.clock 0) message (some raw_payload_id) in
      (append_if events event, after_parse event s')

  -- The loop, with `event_data_list` and `max_update_id` as they are so far.
  unfoldable pub collect_updates :
      String
      → List TelegramUpdate
      → List NormalizedEventCreate
      → Option ℕ
      → Session
      → (List NormalizedEventCreate × Option ℕ) × Session
  unfolding take_update raise_id
  collect_updates correlation_id [] events max_id s = ((events, max_id), s)
  collect_updates correlation_id (u ∷ us) events max_id s =
      let (events', s') = take_update correlation_id u u.message events s in
      collect_updates correlation_id us events' (raise_id max_id u.update_id) s'

  -- From the fetched updates on, up to `session.commit()`.
  unfoldable pub store_updates : String → List TelegramUpdate → Session → ℕ × Session
  unfolding collect_updates acknowledge store_if_any
  store_updates correlation_id updates s =
      let ((events, max_id), s') = collect_updates correlation_id updates [] none s in
      store_if_any events correlation_id (acknowledge max_id s')

  unfoldable pub poll_block :
      (Option ℕ → Outcome (List TelegramUpdate)) → String → Session → Outcome ℕ × Session
  unfolding get_cursor offset_of store_updates
  poll_block get_updates correlation_id s =
      elim (offset_of (get_cursor "telegram" "default" s.db)) [
        | none ↦ (raised "invalid literal for int() with base 10", s)
        | some offset ↦ elim (get_updates offset) [
          | raised e ↦ (raised e, s)
          | ok updates ↦ let (n, s') = store_updates correlation_id updates s in (ok n, s')
        ]
      ]

  -- The task around `_sync_telegram_messages`.
  unfoldable pub sync_telegram_messages :
      (String → Bool)
      → Attempts
      → (Option ℕ → Outcome (List TelegramUpdate))
      → String
      → Session
      → Outcome ℕ × Session
  unfolding run_task logged poll_block
  sync_telegram_messages retryable a get_updates correlation_id s =
      run_task cfg retryable a "src.telegram.tasks.sync_telegram_messages" "telegram"
        (logged correlation_id "telegram_poll" (poll_block get_updates correlation_id) s)
