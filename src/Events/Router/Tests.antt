-- ===== src/Events/Router/Tests.antt =====
-- Concrete requests to the event endpoints.
use omnisync.Base.{◌≡◌, refl, true, none, []}
use omnisync.Auth.{accepted, refused, unauthorized}
use omnisync.Auth.Model.{User}
use omnisync.Auth.Reply.{denied, unprocessable}
use omnisync.Session.{Store}
use omnisync.Pagination.Unary.{unary_codec}
use omnisync.Events.Query.{EventFilterParams}
use omnisync.Events.Router.{list_events, get_event}

abbrev ann : User
ann = record { id = 1; username = "ann"; hashed_password = "h"; is_active = true; created_at = 5 }

abbrev all_events : EventFilterParams
all_events = record {
  source = none;
  author_id = none;
  event_type = none;
  date_from = none;
  date_to = none;
  cursor = none;
}

abbrev no_rows : Store
no_rows = record {
  events = [];
  versions = [];
  outbox = [];
  raw_payloads = [];
  failed_events = [];
  sync_states = [];
  sync_logs = [];
  deliveries = [];
  users = [];
}

large_limit : list_events unary_codec (accepted ann) all_events 101 no_rows ≡ unprocessable
unfolding list_events
large_limit = refl

no_user :
    get_event (refused (unauthorized "User not found")) 7 no_rows
    ≡ denied (unauthorized "User not found")
unfolding get_event
no_user = refl
