-- ===== src/Services/Message.antt =====
-- `MessageService.create` of backend/app/services/message_service.py.
pub mod Binding
use chatterbox.Prelude.{
  ℕ, Bool, true, false, ◌&&◌, ◌||◌, not, Option, none, some, List, [], ◌∷◌, ◌++◌, map, reverse,
  filter, find?, find_last?, any, update_where, length, take, get_last?, mem, unique, from_keys,
  ◌==◌, ltb, ◌≡◌, ◌≢◌, is_none, strip, if◌then◌else◌,
}
use chatterbox.Errors.{
  AppError, Exception, failure, Result, ok, raised, empty_message, too_many_attachments,
  duplicate_attachments, invalid_attachments, invalid_cursor,
}
use chatterbox.Models.{
  Uuid, Time, Text, Conversation, ConversationMember, Message, MessageReceipt, Attachment, Db,
}
use chatterbox.Session.{Exec, pure, throw, raise, lift, gets, raise_if, modify, commit, ◌>>=◌, ◌>>◌}
use chatterbox.Repositories.Messages
use chatterbox.Repositories.Messages.{Cursor, position, page_before, page_after}
use chatterbox.Repositories.Attachments.{lock_for_message}
use chatterbox.Repositories.Conversations.{members_of}
use chatterbox.Services.Conversation.{get_authorized, touch}

abbrev pub is_bound_to : Uuid → Attachment → Bool
is_bound_to message_id a = elim a.message_id [ none ↦ false | some i ↦ i == message_id ]

-- `{attachment.id: attachment for attachment in attachments}[item_id]`: the last one counts
abbrev by_id : Uuid → List Attachment → Option Attachment
by_id item_id attachments = find_last? (λ a. a.id == item_id) attachments

-- The list comprehension over `attachment_ids`; a missing key raises `KeyError`.
in_order : List Uuid → List Attachment → Result (List Attachment)
in_order [] attachments = ok []
in_order (i ∷ is) attachments =
    let rest = in_order is attachments in
    elim (by_id i attachments) [
      | none ↦ raised failure
      | some a ↦ elim rest [ ok as' ↦ ok (a ∷ as') | raised e ↦ raised e ]
    ]

-- the `any(...)` guard, on one attachment
abbrev pub is_unusable : Uuid → Uuid → Attachment → Bool
is_unusable conversation_id sender_id a =
    not (a.conversation_id == conversation_id)
    || (not (a.uploader_id == sender_id) || (is_none a.uploaded_at || not (is_none a.message_id)))

abbrev pub new_message : Uuid → Time → Uuid → Uuid → Text → Message
new_message id now conversation_id sender_id content = record {
  id = id;
  conversation_id = conversation_id;
  sender_id = sender_id;
  content = strip content;
  created_at = now;
  edited_at = none;
  deleted_at = none;
}

-- A receipt for each member but the sender; `receipt_id` gives the rows' `uuid4()`.
abbrev new_receipts : (Uuid → Uuid) → Uuid → Uuid → List ConversationMember → List MessageReceipt
new_receipts receipt_id message_id sender_id members =
    map
      (λ m. record {
        id = receipt_id m.user_id;
        message_id = message_id;
        user_id = m.user_id;
        delivered_at = none;
        read_at = none;
      })
      (filter (λ m. not (m.user_id == sender_id)) members)

-- the flush: the message, its receipts, and `message_id` of its attachments
abbrev insert_message : Message → List MessageReceipt → List Uuid → Db → Db
insert_message message receipts attachment_ids db = record db {
  messages = db.messages ++ message ∷ [];
  receipts = db.receipts ++ receipts;
  attachments =
      update_where (λ a. mem a.id attachment_ids) (λ a. record a { message_id = some message.id })
        db.attachments;
}

-- The checks of `create` on the attachments, and those attachments in the order asked for.
checked_attachments : ℕ → Uuid → Uuid → List Uuid → Exec (List Attachment)
unfolding in_order
checked_attachments max_attachments conversation_id sender_id attachment_ids = do
  raise_if (ltb max_attachments (length attachment_ids)) too_many_attachments
  raise_if (not (unique attachment_ids)) duplicate_attachments
  attachments ← gets (lock_for_message attachment_ids)
  raise_if (not (length (from_keys [] (map (λ a. a.id) attachments)) == length attachment_ids))
      invalid_attachments
  ordered ← lift (in_order attachment_ids attachments)
  raise_if (any (is_unusable conversation_id sender_id) ordered) invalid_attachments
  pure ordered

abbrev is_empty_text : Text → Bool
is_empty_text [] = true
is_empty_text (c ∷ cs) = false

abbrev is_empty_ids : List Uuid → Bool
is_empty_ids [] = true
is_empty_ids (i ∷ is) = false

-- `MessageService.create`, up to the response.
unfoldable pub store_message :
    ℕ → (Uuid → Uuid) → Uuid → Time → Uuid → Uuid → Text → List Uuid → Exec Message
unfolding checked_attachments
store_message max_attachments receipt_id id now conversation_id sender_id content attachment_ids =
    do
      conversation ← get_authorized conversation_id sender_id
      raise_if (is_empty_text (strip content) && is_empty_ids attachment_ids) empty_message
      _ ← checked_attachments max_attachments conversation_id sender_id attachment_ids
      members ← gets (members_of conversation.id)
      let message = new_message id now conversation_id sender_id content
      modify (insert_message message (new_receipts receipt_id id sender_id members) attachment_ids)
      modify (touch now conversation.id)
      commit
      pure message
