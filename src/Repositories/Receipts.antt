-- ===== src/Repositories/Receipts.antt =====
-- backend/app/repositories/receipt_repository.py
use chatterbox.Prelude.{
  Bool, ◌&&◌, not, Option, none, some, List, [], ◌∷◌, map, filter, find?, any, update_where, mem,
  ◌==◌, is_none,
}
use chatterbox.Models.{Uuid, Time, Message, MessageReceipt, Db}
use chatterbox.Repositories.Messages.{Cursor, position, precedes}

-- The WHERE clauses of the three updates.
abbrev pub is_undelivered_to : Uuid → List Uuid → MessageReceipt → Bool
is_undelivered_to message_id user_ids r =
    (r.message_id == message_id) && (mem r.user_id user_ids && is_none r.delivered_at)

abbrev pub is_pending_for : Uuid → MessageReceipt → Bool
is_pending_for user_id r = (r.user_id == user_id) && is_none r.delivered_at

-- at or before the target: `created_at < t OR (created_at = t AND id <= i)`
abbrev pub is_through : Cursor → Message → Bool
is_through target m = not (precedes target (position m))

abbrev pub is_unread_through : Uuid → Uuid → Cursor → Db → MessageReceipt → Bool
is_unread_through conversation_id user_id target db r =
    any
      (λ m.
        (m.id == r.message_id) && ((m.conversation_id == conversation_id) && is_through target m))
      db.messages
    && ((r.user_id == user_id) && is_none r.read_at)

abbrev pub deliver : Time → MessageReceipt → MessageReceipt
deliver now r = record r { delivered_at = some now }

-- `receipt.delivered_at or now`
abbrev pub or_now : Option Time → Time → Option Time
or_now none now = some now
or_now (some t) now = some t

abbrev pub read : Time → MessageReceipt → MessageReceipt
read now r = record r { delivered_at = or_now r.delivered_at now; read_at = some now }

-- An update in place of the selected rows, and those rows as they are then.
abbrev pub mark :
    (MessageReceipt → Bool) → (MessageReceipt → MessageReceipt) → Db → List MessageReceipt × Db
mark p f db = (map f (filter p db.receipts), record db { receipts = update_where p f db.receipts })

unfoldable pub mark_delivered : Time → Uuid → List Uuid → Db → List MessageReceipt × Db
mark_delivered now message_id [] db = ([], db)
mark_delivered now message_id (u ∷ us) db =
    mark (is_undelivered_to message_id (u ∷ us)) (deliver now) db

unfoldable pub mark_pending_delivered : Time → Uuid → Db → List MessageReceipt × Db
mark_pending_delivered now user_id db = mark (is_pending_for user_id) (deliver now) db

unfoldable pub mark_read_through : Time → Uuid → Uuid → Cursor → Db → List MessageReceipt × Db
mark_read_through now conversation_id user_id target db =
    mark (is_unread_through conversation_id user_id target db) (read now) db

-- `joinedload(MessageReceipt.message)`: the foreign key gives every receipt its message.
unfoldable pub join_messages : Db → List MessageReceipt → List (MessageReceipt × Message)
join_messages db [] = []
join_messages db (r ∷ rs) =
    let rest = join_messages db rs in
    elim (find? (λ m. m.id == r.message_id) db.messages) [ none ↦ rest | some m ↦ (r, m) ∷ rest ]
