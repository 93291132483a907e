-- ===== src/Realtime/Events.antt =====
-- backend/app/websocket/events.py: what the server sends, and what it accepts.
use chatterbox.Prelude.{
  ℕ, Bool, true, false, ◌&&◌, Option, none, some, List, [], ◌∷◌, unique, strip, if◌then◌else◌, leb,
  length,
}
use chatterbox.Errors.{AppError}
use chatterbox.Models.{Uuid, Time, Text}
use chatterbox.Services.History.{MessageResponse}
use chatterbox.Services.Receipt.{ReceiptEventData}

-- `code` of an `ErrorDetail`
pub data ErrorCode : Type 0 where
  app : AppError → ErrorCode
  invalid_event internal_error invalid_json : ErrorCode

pub data Event : Type 0 where
  connection_ready : Uuid → List Uuid → Event
  message_created : Option Text → MessageResponse → Event
  message_delivered : ReceiptEventData → Event
  message_read : Option Text → ReceiptEventData → Event
  typing_started : Uuid → Uuid → Event
  typing_stopped : Uuid → Uuid → Event
  presence_online : Uuid → Event
  presence_offline : Uuid → Time → Event
  error : Option Text → ErrorCode → Event

pub record MessageSendEvent : Type 0 where
  pub request_id : Option Text
  pub conversation_id : Uuid
  pub content : Text
  pub attachment_ids : List Uuid

pub record MessageReadRequest : Type 0 where
  pub request_id : Option Text
  pub conversation_id : Uuid
  pub message_id : Uuid

-- A payload of one of the four types, with its fields read by pydantic.
pub data ClientEvent : Type 0 where
  send : MessageSendEvent → ClientEvent
  read : MessageReadRequest → ClientEvent
  typing_start : Uuid → ClientEvent
  typing_stop : Uuid → ClientEvent

abbrev within : ℕ → Option Text → Bool
within n none = true
within n (some t) = leb (length t) n

abbrev is_nil : List ℕ → Bool
is_nil [] = true
is_nil (x ∷ xs) = false

-- `MessageSendEvent`: the limits of its fields, and `require_content_or_attachment`
unfoldable pub validate_send : MessageSendEvent → Option MessageSendEvent
validate_send e =
    let content = strip e.content in
    if within 64 e.request_id && (leb (length e.content) 4000 && leb (length e.attachment_ids) 10)
    then (if is_nil content && is_nil e.attachment_ids
        then none
        else if unique e.attachment_ids
        then some (record e { content = content })
        else none)
    else none

abbrev pub map_send : Option MessageSendEvent → Option ClientEvent
map_send none = none
map_send (some e) = some (send e)

-- `client_event_adapter.validate_python`, behind pydantic's reading of the fields
unfoldable pub validate : ClientEvent → Option ClientEvent
unfolding validate_send
validate (send e) = map_send (validate_send e)
validate (read e) = if within 64 e.request_id then some (read e) else none
validate (typing_start c) = some (typing_start c)
validate (typing_stop c) = some (typing_stop c)
