-- ===== src/Lib.antt =====
-- OmniSync: a service that ingests events from several sources into one table of normalized events,
-- keeps the history of their versions, and publishes changes through a transactional outbox.
--
-- Connectors and webhooks hand batches of events to `NormalizedEventService.upsert_events_bulk`
-- (src/events/service.py), which runs in the transaction of the caller: it writes
-- `normalized_events`, snapshots versions into `event_versions` and appends to `outbox_events`. The
-- publisher (src/outbox/tasks.py) takes pending outbox rows to the search index.
--
-- The files:
--   Base: tests on numbers and texts (Base/Tests), lists (Base/Lists), tables keyed by an id
--     (Base/Rows), JSON values (Base/Json), UUIDs and clock readings as streams of draws
--     (Base/Draws), and the pagination of a sorted table by a key (Base/Keyset).
--   Config: src/config.py. Session: src/database.py, a transaction as the committed store and
--     the working store. Pagination: src/pagination.py, where the two cursor functions are an
--     interface with their round trip as laws (their JSON and base64 are not translated), and
--     Pagination/Unary an instance of it.
--   Events: src/events. Model has the tables and the input, Upsert the bulk upsert, Query the
--     reads (Page and Listing: what a page and the whole listing show, Paging a client that follows the
--     pages, Watermark the newest time), Router the endpoints. The children of Upsert say what it does
--     to the keys (Keys), the rows (Rows, Effect), the results and the outbox (Results), and the
--     versions (History, Ids, Recorded).
--   Outbox: src/outbox. Enqueue is the write side, Publish the publisher, with the effect of one
--     run (Effect) and of repeated runs (Attempts), Changes the read of the change feed.
--   Agent: src/agent. The polling endpoint and a round of the stream; Feed has one poll, Consumer
--     a consumer that polls while transactions append rows, as a relation of steps.
--   Dlq: src/dlq. Backoff the delays, Record the recording of a failure, with the queue that it
--     keeps (Collapse) and the row that it writes (Effect), Retry the scan of the retrier (Scan,
--     Effect, Queue), Replay the manual replay, Listing the list of failures. The broker's answers are
--     a parameter.
--   SyncState, SyncLogs, RawPayloads: src/sync_state, src/sync_logs, src/raw_payloads. The watermark
--     of a source, the log of a run in the caller's session or in one of its own, the payloads with
--     their deduplication and a store of objects as a parameter; RawPayloads/ObjectStore is the store
--     of src/raw_payloads/storage.py with its URLs (Kept: reading back), RawPayloads/Detail the endpoint.
--   Integrations: src/integrations. The driver of a connector's sync, which uses all the parts above;
--     Frame has what the fetch loop leaves alone, Latest the newest timestamp and the cursor of a
--     run, Collected the events of its items, Failure and Success its two ends.
--   Auth: src/auth. The service, the dependency that checks a request and the endpoints; Revocation
--     has what a logout does to a token, Reply the answers of an endpoint that asks for a user. Redis is
--     the list of its keys with their ends.
--   Tasks: what the polling tasks share: the log of a run in sessions of its own, and the rule for
--     the dead-letter queue; Ends has the two ends of such a run.
--   Webhooks: the table of src/webhooks. Delivery has what the webhook handlers share, from the check of
--     a delivery to the settling of its outcome, Blocks the rows that frame its `try` block, and Replies
--     what a delivery leaves behind.
--   Github: src/github. Normalize has the items and the two parsers (Normalize/Commits: what an upsert
--     of parsed commits stores), Client the client (Trim: the pull requests that it keeps), Webhook the
--     endpoints (Delivered: what a delivery leaves), Poll the tasks (Polled: what they leave).
--   Jira: src/jira. Search has the query and the loop over the pages, Pages its end and what it
--     collects, Normalize the text of a description and the event of an issue.
--   Imap: src/imap. Message has the messages, Connection the kept connection and the fetch (Kept: what
--     a fetch leaves in the cache), Poll the task and the endpoint (Polled: what a failure leaves), Smtp
--     the sending of mail (Smtp/Handed: how often a mail is handed over).
--   Filestore: src/filestore. The changed objects of a bucket and their events.
--   Search: src/search. The points of the collection; Points has what indexing does to them, for a server
--     that upserts as documented, Endpoint the search of a user.
--   DbTypes: src/db_types.py. The UUID column; Hex has its digits. Health: the health endpoints of
--     src/main.py.
--   Telegram: src/telegram, in the same parts as Github; Poll/Offset has the cursor as a text, Poll/Collect the
--     loop over the updates, Stored what a poll writes.
--
-- A table is the list of its rows in the order of insertion; a statement is a function on it.
-- SELECT FOR UPDATE SKIP LOCKED takes the rows that others have locked as a parameter. Texts are
-- compared as they are. A UUID is its number and a time is a count of microseconds, so both
-- compare as in the database. Python's integers are the natural numbers, since the counters here
-- only grow from zero. A session runs alone between its first statement and its commit.
--
-- Fuel occurs in `read_all`, a client that follows cursors, where more than the number of rows is
-- enough, in `digits`, where the successor of the number is, and in the search of Jira, where one more
-- than the highest total that the server states is.
--
-- A connector is two functions that may raise, and the texts of timestamps are an interface with their
-- round trip as a law. That a database statement fails is not modelled.
--
-- The validation of items and the HMAC of a body are parameters of the webhooks, and the requests with
-- their retries are parameters of the clients. `compare_digest` is the equality of texts; that it
-- refuses texts with other than ASCII characters is not modelled. The id of a chat, which may be
-- negative, is kept as its text.
--
-- Not modelled: the parsing of requests, logging, metrics and tracing, which only call libraries; the rate
-- limits of the endpoints and the spacing of requests; the embeddings of the search and the scores of its
-- engine; the wiring of the application. The numbers of a JSON value are natural: negative ones and
-- fractions have no form. The dates of mails are taken as times in UTC, also where the email library
-- gives a time without a zone.
pub mod Base
pub mod Config
pub mod DbTypes
pub mod Session
pub mod Pagination
pub mod Events
pub mod Filestore
pub mod Search
pub mod Outbox
pub mod Dlq
pub mod RawPayloads
pub mod SyncState
pub mod SyncLogs
pub mod Tasks
pub mod Telegram
pub mod Webhooks
pub mod Auth
pub mod Agent
pub mod Integrations
pub mod Github
pub mod Health
pub mod Imap
pub mod Jira
