-- ===== src/Services/History.antt =====
-- `MessageService.list` of backend/app/services/message_service.py, the pages of a conversation.
-- The text form of a cursor is a `CursorCodec`.
pub mod Ordered
pub mod Pages
pub mod Walk
pub mod WalkBack
pub mod Posted
use chatterbox.Prelude.{
  ℕ, suc, Bool, true, false, ◌&&◌, Option, none, some, List, [], ◌∷◌, map, reverse, filter, length,
  take, get_last?, ◌==◌, ltb, ◌≡◌, ◌≢◌, if◌then◌else◌,
}
use chatterbox.Errors.{Result, ok, invalid_cursor}
use chatterbox.Models.{Uuid, Time, Text, Message, MessageReceipt, Attachment, Db}
use chatterbox.Session.{Exec, pure, raise, lift, gets, raise_if, ◌>>=◌, ◌>>◌}
use chatterbox.Repositories.Messages.{Cursor, position, page_before, page_after}
use chatterbox.Services.Conversation.{get_authorized, username_of}
use chatterbox.Services.Message.{is_bound_to}

-- `encode_cursor` and `decode_cursor`, with what the pages rely on. A cursor is writable if its time
-- and its id are in the range of their types.
pub record CursorCodec : Type 0 where
  pub writable : Cursor → Bool
  pub encode : Cursor → Text
  pub decode : Text → Result Cursor
  pub decode-encode : (c : Cursor) → writable c ≡ true → decode (encode c) ≡ ok c
  pub encode_nonempty : (c : Cursor) → encode c ≢ []

-- schemas/message.py
pub record MessageResponse : Type 0 where
  pub id : Uuid
  pub conversation_id : Uuid
  pub sender_id : Uuid
  pub sender_username : Text
  pub content : Text
  pub created_at : Time
  pub edited_at : Option Time
  pub cursor : Text
  pub receipts : List MessageReceipt
  pub attachments : List Attachment

pub record MessagePage : Type 0 where
  pub items : List MessageResponse
  pub next_cursor : Option Text

-- the truth value of an `Optional[str]`
abbrev pub is_given : Option Text → Bool
is_given none = false
is_given (some []) = false
is_given (some (c ∷ cs)) = true

abbrev pub text_of : Option Text → Text
text_of none = []
text_of (some t) = t

module _ (codec : CursorCodec) where
  -- `_to_response`
  pub to_response : Db → Message → MessageResponse
  to_response db m = record {
    id = m.id;
    conversation_id = m.conversation_id;
    sender_id = m.sender_id;
    sender_username = username_of m.sender_id db;
    content = m.content;
    created_at = m.created_at;
    edited_at = m.edited_at;
    cursor = codec.encode (position m);
    receipts = filter (λ r. r.message_id == m.id) db.receipts;
    attachments = filter (is_bound_to m.id) db.attachments;
  }

  -- `encode_cursor(records[-1])`, if there is a last record
  abbrev encode_last : List Message → Option Text
  encode_last records = elim (get_last? records) [
    | none ↦ none
    | some m ↦ some (codec.encode (position m))
  ]

  abbrev next_cursor : Bool → List Message → Option Text
  next_cursor has_more records = if has_more then encode_last records else none

  -- From `limit + 1` records at most: the first `limit`, and the cursor of the last of them if
  -- there was one more.
  pub page_forward : ℕ → Db → List Message → MessagePage
  unfolding to_response
  page_forward limit db found =
      let records = take limit found in
      record {
        items = map (to_response db) records;
        next_cursor = next_cursor (ltb limit (length found)) records;
      }

  -- The same with the items turned round, oldest first.
  pub page_backward : ℕ → Db → List Message → MessagePage
  unfolding to_response
  page_backward limit db found =
      let records = take limit found in
      record {
        items = map (to_response db) (reverse records);
        next_cursor = next_cursor (ltb limit (length found)) records;
      }

  abbrev decode_before : Option Text → Exec (Option Cursor)
  decode_before before s =
      if is_given before
      then (elim (codec.decode (text_of before)) [
        | ok c ↦ (ok (some c), s)
        | Result.raised e ↦ (Result.raised e, s)
      ])
      else (ok none, s)

  unfoldable pub list_after : Uuid → ℕ → Text → Exec MessagePage
  unfolding page_forward
  list_after conversation_id limit after = do
    c ← lift (codec.decode after)
    gets (λ db. page_forward limit db (page_after conversation_id limit c db))

  list_before : Uuid → ℕ → Option Text → Exec MessagePage
  unfolding page_backward
  list_before conversation_id limit before = do
    c ← decode_before before
    gets (λ db. page_backward limit db (page_before conversation_id limit c db))

  -- `MessageService.list`
  unfoldable pub list : Uuid → Uuid → ℕ → Option Text → Option Text → Exec MessagePage
  unfolding list_after list_before
  list conversation_id current_user_id limit before after = do
    _ ← get_authorized conversation_id current_user_id
    raise_if (is_given before && is_given after) invalid_cursor
    if is_given after
        then list_after conversation_id limit (text_of after)
        else list_before conversation_id limit before
