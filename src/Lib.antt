-- ===== src/Lib.antt =====
-- Chatterbox: the backend of a direct-message chat, in backend/app.
--
-- A request or a WebSocket event reaches a service, which reads and writes the database through the
-- repositories; what it answers is sent to the connected sockets by the connection manager,
-- directly or, where several instances run, through Redis.
--
-- - Models, Repositories and Session: backend/app/models, backend/app/repositories and the session
--   of SQLAlchemy. The database is a record of lists of rows; a query or an update is a function of
--   it. A service method is a value of `Exec`: it runs on a session, which has the committed
--   database and the request's own view, and returns a result or raises. `request` runs a method
--   from a committed database to the next one; what is not committed is lost. A method that also
--   writes to the object store is a value of `Stored`, which gives the bucket on every branch.
-- - Errors and Config: backend/app/core/errors.py and backend/app/core/config.py.
-- - Tokens, Storage: backend/app/core/security.py, storage.py and scanning.py. PyJWT, pwdlib, the
--   MinIO client and the ClamAV daemon are parameters; Storage/Scanning has what is sent to the
--   daemon and read of its reply.
-- - Migrations: the revisions of backend/alembic/versions as the operations that they ask for, on
--   schemas as lists of tables, and the tables that backend/app/models declare. The database that
--   runs the operations is a parameter.
-- - UuidText: `str` and the constructor of a UUID, for the direct key, the storage keys and the
--   cursors.
-- - Services: a file for each service of backend/app/services, a function for each method.
--   Services/Auth has auth_service.py, Services/Conversation conversation_service.py,
--   Services/Message `create` and Services/History `list` of message_service.py, for any
--   text form of the cursors, and Services/Cursor the one that it has, in base64; Services/Receipt
--   receipt_service.py, Services/Attachment attachment_service.py, Services/Presence
--   presence_service.py and `UserService.get`. What is drawn at random, the time and what other
--   requests commit meanwhile are arguments.
-- - Services/CleanupWorker: the worker of attachment_cleanup.py, its lock in Redis and its loop.
-- - Realtime: backend/app/websocket and backend/app/api/websocket.py. Realtime/Events has
--   events.py, Realtime/Manager manager.py with the distributed backend as an interface,
--   Realtime/Redis the Lua scripts and the operations of redis_backend.py over the sorted sets of
--   Realtime/SortedSet, Realtime/RedisBackend `RedisRealtimeBackend` as the manager's backend with
--   its listener and, in RedisBackend/Maintenance, `_maintain`, and in RedisBackend/Lifecycle its
--   start and stop; Realtime/Handlers has handlers.py.
--   Realtime/Handshake has auth.py, and Realtime/Endpoint `websocket_endpoint` with
--   `mark_user_offline`.
-- - Schemas, Api: backend/app/schemas, as far as they validate, and backend/app/api with the
--   exception handlers of backend/app/core/errors.py: `serve` takes a call of a route to its
--   response.
-- - Application, Observability: the lifespan and the readiness of backend/app/main.py with
--   backend/app/core/health.py, and the middleware and the log lines of
--   backend/app/core/observability.py.
-- - Examples: concrete parameters and rows on which the theorems are used.
--
-- The children of a module prove what its definitions do. UUIDs and texts are numbers and lists of
-- code points, durations and times count microseconds. Every loop is a structural recursion, but
-- for three on fuel: a client who follows the pages of a history, for whom more rounds than there
-- are messages are enough; the cleanup, for which more rounds than there are attachments are; and
-- the daemon that reads an object to scan, for which more rounds than there are chunks are. Calls
-- of one instance are one after the other, as its locks make them; the instances meet in schedules
-- of steps on the shared state of Redis: a script or a pipeline is one step, and each command of the
-- presence sweep is one, between which others act. Of what is published, an instance delivers what
-- its subscription receives, which may be nothing.
--
-- Not modelled: alembic/env.py, durations, the configuration of logging and tracing; the parsing of
-- requests by FastAPI; the pauses between the rounds of background tasks, and their cancellation;
-- exceptions other than RuntimeError of a send to a socket, but for error events; changes of rows
-- and objects by others while a run of the cleanup removes.
pub mod Prelude
pub mod Config
pub mod Errors
pub mod Migrations
pub mod Models
pub mod Session
pub mod Repositories
pub mod UuidText
pub mod Storage
pub mod Tokens
pub mod Services
pub mod Schemas
pub mod Api
pub mod Observability
pub mod Application
pub mod Realtime
pub mod Examples
