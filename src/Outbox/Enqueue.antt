-- ===== src/Outbox/Enqueue.antt =====
-- `enqueue_event` of src/outbox/service.py: one pending outbox row in the session of the upsert.
use omnisync.Base.{[], ◌∷◌, ◌++◌, none, draw, tick}
use omnisync.Events.Model.{NormalizedEvent}
use omnisync.Outbox.Model.{Payload, Status}
use omnisync.Session.{Session}

unfoldable pub payload_of : NormalizedEvent → Payload
payload_of ev = record {
  event_id = ev.id;
  source = ev.source;
  external_id = ev.external_id;
  event_type = ev.event_type;
  content = ev.content;
  version = ev.version;
  schema_version = ev.schema_version;
}

unfoldable pub enqueue_event : NormalizedEvent → Session → Session
unfolding payload_of
enqueue_event ev s = record s {
  db = record s.db {
    outbox =
        s.db.outbox
        ++ record {
          id = s.world.uuids 0;
          aggregate_type = "normalized_event";
          aggregate_id = ev.id;
          event_type = ev.event_type;
          payload = payload_of ev;
          status = Status.pending;
          attempts = 0;
          last_error = none;
          created_at = s.world.clock 0;
          published_at = none;
        }
          ∷ [];
  };
  world = tick (draw s.world);
}
