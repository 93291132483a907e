-- ===== src/Realtime/Handlers.antt =====
-- backend/app/websocket/handlers.py: from a client's payload to the services and the manager.
pub mod Outcomes
use chatterbox.Prelude.{
  ℕ, Bool, true, false, not, Option, none, some, List, [], ◌∷◌, ◌++◌, filter, ◌==◌, ◌||◌, codes,
  text_eq, if◌then◌else◌,
}
use chatterbox.Config.{Settings}
use chatterbox.Errors.{app_error, failure, Result, ok, raised, conversation_forbidden, rate_limited}
use chatterbox.Models.{Uuid, Time, Text, Db}
use chatterbox.Session.{Exec, pure, gets, raise_if, request, ◌>>=◌, ◌>>◌}
use chatterbox.Repositories.Conversations
use chatterbox.Services.Message
use chatterbox.Services.History
use chatterbox.Services.History.{CursorCodec, MessageResponse}
use chatterbox.Services.Receipt
use chatterbox.Services.Receipt.{ReceiptEventData}
use chatterbox.Realtime.Events.{
  Event, ErrorCode, ClientEvent, MessageSendEvent, MessageReadRequest, validate, message_created,
  message_delivered, message_read, typing_started, typing_stopped, error,
}
use chatterbox.Realtime.Manager
use chatterbox.Realtime.Manager.{Backend, Socket, online_user_ids, send_to_users, send_to_user}

-- the labels of `WEBSOCKET_EVENTS_TOTAL`
pub data Outcome : Type 0 where
  accepted invalid rejected errored : Outcome

-- `payload.get("type")`: nothing, a string, or another JSON value, which can be hashed or, as a list
-- or an object, cannot.
pub data RawType : Type 0 where
  missing hashable unhashable : RawType
  string : Text → RawType

-- What arrives: the `request_id` where it is a string, the raw `type`, and the event that pydantic
-- reads from the fields, if they have the right types.
pub record Payload : Type 0 where
  pub request_id : Option Text
  pub raw_type : RawType
  pub fields : Option ClientEvent

-- What an event draws: the `uuid4()` of a message and of its receipts, and the time; `reply` is how the
-- sending of an error event ends, which raises where a transport is broken.
pub record Draws : Type 0 where
  pub now : Time
  pub message_id : Uuid
  pub receipt_id : Uuid → Uuid
  pub reply : Result (Unit {0})

abbrev is_event_type : Text → Bool
is_event_type t =
    text_eq t (codes "message.send")
    || (text_eq t (codes "message.read")
        || (text_eq t (codes "typing.start") || text_eq t (codes "typing.stop")))

-- `event_type`, the label of the counter. The test for membership in the set of names raises
-- `TypeError` on a value that cannot be hashed.
unfoldable pub event_type : RawType → Result Text
event_type RawType.missing = ok (codes "unknown")
event_type RawType.hashable = ok (codes "unknown")
event_type RawType.unhashable = raised failure
event_type (RawType.string t) = if is_event_type t then ok t else ok (codes "unknown")

module _ (backend : Backend) (codec : CursorCodec) (settings : Settings)
    (is_stale : Socket → Bool) where
  -- One instance: the database, the manager, and the counter's increments.
  pub record Server : Type 0 where
    pub db : Db
    pub manager : Manager.Manager backend
    pub counted : List (Text × Outcome)

  abbrev pub Handler : Type 0
  Handler = Server → Result (Unit {0}) × Server

  -- `async with session_factory() as session`, and what is done with its result
  abbrev pub in_session : {A : Type 0} → Exec A → (A → Handler) → Handler
  in_session m k s =
      let (r, db) = request m s.db in
      let s1 = record s { db = db } in elim r [ ok a ↦ k a s1 | raised e ↦ (raised e, s1) ]

  abbrev pub done : Handler
  done s = (ok tt, s)

  abbrev pub send : List Uuid → Event → Server → Server
  send user_ids event s = record s {
    manager = send_to_users backend is_stale user_ids event none s.manager;
  }

  -- `for receipt in receipts: await manager.send_to_users(...)`
  pub send_each : List Uuid → (ReceiptEventData → Event) → List ReceiptEventData → Server → Server
  send_each member_ids event [] s = s
  send_each member_ids event (r ∷ rs) s =
      send_each member_ids event rs (send member_ids (event r) s)

  -- the first session of `handle_message_send`
  abbrev pub create_message :
      Draws → MessageSendEvent → Uuid → Exec (Uuid × MessageResponse × List Uuid)
  create_message draws e user_id = do
    message ←
        Message.store_message settings.attachment_max_per_message draws.receipt_id draws.message_id
          draws.now e.conversation_id user_id e.content e.attachment_ids
    response ← gets (λ db. History.to_response codec db message)
    member_ids ← gets (Conversations.member_ids e.conversation_id)
    pure (message.id, response, member_ids)

  -- The part behind the creation: to everyone the message, and the receipts of who is online.
  pub announce : Draws → MessageSendEvent → Uuid → Uuid × MessageResponse × List Uuid → Handler
  unfolding send_each
  announce draws e user_id (message_id, response, member_ids) s =
      let s1 = send member_ids (message_created e.request_id response) s in
      let recipient_ids = filter (λ u. not (u == user_id)) member_ids in
      let (online, m) = online_user_ids backend recipient_ids s1.manager in
      let s2 = record s1 { manager = m } in
      if Manager.is_empty online
      then done s2
      else in_session (Receipt.mark_delivered draws.now message_id online)
          (λ receipts s3. (ok tt, send_each member_ids message_delivered receipts s3)) s2

  pub handle_message_send : Draws → MessageSendEvent → Uuid → Handler
  unfolding announce
  handle_message_send draws e user_id =
      in_session (create_message draws e user_id) (announce draws e user_id)

  abbrev pub read_messages :
      Draws → MessageReadRequest → Uuid → Exec (List ReceiptEventData × List Uuid)
  read_messages draws e user_id = do
    receipts ← Receipt.mark_read draws.now e.conversation_id e.message_id user_id
    member_ids ← gets (Conversations.member_ids e.conversation_id)
    pure (receipts, member_ids)

  announce_read : MessageReadRequest → List ReceiptEventData × List Uuid → Handler
  unfolding send_each
  announce_read e (receipts, member_ids) s =
      (ok tt, send_each member_ids (message_read e.request_id) receipts s)

  pub handle_message_read : Draws → MessageReadRequest → Uuid → Handler
  unfolding announce_read
  handle_message_read draws e user_id = in_session (read_messages draws e user_id) (announce_read e)

  abbrev pub typing_members : Uuid → Uuid → Exec (List Uuid)
  typing_members conversation_id user_id = do
    member ← gets (Conversations.is_member conversation_id user_id)
    raise_if (not member) conversation_forbidden
    gets (Conversations.member_ids conversation_id)

  -- the events of `handle_typing`; `started` tells a `TypingStartEvent` from a `TypingStopEvent`
  announce_typing : Draws → Bool → Uuid → Uuid → List Uuid → Handler
  announce_typing draws started conversation_id user_id member_ids s = (
    ok tt,
    record s {
      manager =
          if started
          then Manager.typing_start backend is_stale settings.typing_ttl draws.now conversation_id
              user_id member_ids (typing_started conversation_id user_id)
              (typing_stopped conversation_id user_id) s.manager
          else Manager.typing_stop backend is_stale conversation_id user_id member_ids
              (typing_stopped conversation_id user_id) s.manager;
    },
  )

  pub handle_typing : Draws → Bool → Uuid → Uuid → Handler
  unfolding announce_typing
  handle_typing draws started conversation_id user_id =
      in_session (typing_members conversation_id user_id)
        (announce_typing draws started conversation_id user_id)

  -- `if not await manager.allow_action(...): raise AppError(429, ...)`
  pub limited : Uuid → Text → ℕ → Handler → Handler
  limited user_id action limit handler s =
      let (allowed, m) =
        Manager.allow_action backend user_id action limit
          settings.realtime_rate_limit_window_seconds s.manager in
      let s1 = record s { manager = m } in
      if allowed then handler s1 else (raised (app_error rate_limited), s1)

  -- the branches of `dispatch_event`
  pub handle : Draws → ClientEvent → Uuid → Handler
  unfolding limited
  handle draws (ClientEvent.send e) user_id =
      limited user_id (codes "message.send") settings.message_send_rate_limit
        (handle_message_send draws e user_id)
  handle draws (ClientEvent.read e) user_id =
      limited user_id (codes "message.read") settings.receipt_rate_limit
        (handle_message_read draws e user_id)
  handle draws (ClientEvent.typing_start c) user_id =
      limited user_id (codes "typing") settings.typing_rate_limit
        (handle_typing draws true c user_id)
  handle draws (ClientEvent.typing_stop c) user_id =
      limited user_id (codes "typing") settings.typing_rate_limit
        (handle_typing draws false c user_id)

  abbrev pub count : Text → Outcome → Server → Server
  count label outcome s = record s { counted = s.counted ++ (label, outcome) ∷ [] }

  -- an `except` branch: the counter, and an error event to the sender, whose sending may raise
  abbrev pub refuse : Draws → Payload → Text → Uuid → Outcome → ErrorCode → Handler
  refuse draws p label user_id outcome code s =
      let s1 = count label outcome s in
      (
        draws.reply,
        record s1 {
          manager = send_to_user backend is_stale user_id (error p.request_id code) s1.manager;
        },
      )

  -- how the `try` ended
  pub settle :
      Draws → Payload → Text → Uuid → Result (Unit {0}) × Server → Result (Unit {0}) × Server
  settle draws p label user_id (ok _, s) = (ok tt, count label accepted s)
  settle draws p label user_id (raised (app_error e), s) =
      refuse draws p label user_id rejected (ErrorCode.app e) s
  settle draws p label user_id (raised _, s) =
      refuse draws p label user_id errored ErrorCode.internal_error s

  pub or_validated : Option ClientEvent → Option ClientEvent
  or_validated none = none
  or_validated (some e) = validate e

  -- the `try` and its handlers, once the label is known
  pub process : Draws → Payload → Text → Uuid → Handler
  unfolding settle or_validated
  process draws p label user_id s = elim (or_validated p.fields) [
    | none ↦ refuse draws p label user_id invalid ErrorCode.invalid_event s
    | some e ↦ settle draws p label user_id (handle draws e user_id s)
  ]

  pub dispatch_event : Draws → Payload → Uuid → Handler
  unfolding event_type process
  dispatch_event draws p user_id s = elim (event_type p.raw_type) [
    | ok label ↦ process draws p label user_id s
    | raised e ↦ (raised e, s)
  ]
