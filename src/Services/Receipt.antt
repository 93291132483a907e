-- ===== src/Services/Receipt.antt =====
-- backend/app/services/receipt_service.py
pub mod Progress
pub mod Reading
use chatterbox.Prelude.{Bool, not, Option, List, map, ◌==◌, ltb, ◌||◌, ◌&&◌}
use chatterbox.Prelude.Sort.{sort_by}
use chatterbox.Errors.{ok, message_not_found}
use chatterbox.Models.{Uuid, Time, Message, MessageReceipt, Db}
use chatterbox.Session.{Exec, gets, or_raise, raise_if, commit, ◌>>=◌, ◌>>◌}
use chatterbox.Repositories.Messages
use chatterbox.Repositories.Messages.{position}
use chatterbox.Repositories.Receipts
use chatterbox.Repositories.Receipts.{join_messages}
use chatterbox.Services.Conversation.{get_authorized}

-- schemas/receipt.py
pub record ReceiptEventData : Type 0 where
  pub message_id : Uuid
  pub conversation_id : Uuid
  pub user_id : Uuid
  pub delivered_at : Option Time
  pub read_at : Option Time

-- `_to_event`, on a receipt with its joined message
pub to_event : MessageReceipt × Message → ReceiptEventData
to_event (r, m) = record {
  message_id = r.message_id;
  conversation_id = m.conversation_id;
  user_id = r.user_id;
  delivered_at = r.delivered_at;
  read_at = r.read_at;
}

-- An update of receipts: the rows it changed, and the new view of the request.
abbrev updating : (Db → List MessageReceipt × Db) → Exec (List MessageReceipt)
updating f s = let (rows, db) = f s.working in (ok rows, record s { working = db })

unfoldable pub mark_delivered : Time → Uuid → List Uuid → Exec (List ReceiptEventData)
unfolding to_event
mark_delivered now message_id user_ids = do
  receipts ← updating (Receipts.mark_delivered now message_id user_ids)
  commit
  gets (λ db. map to_event (join_messages db receipts))

unfoldable pub mark_pending_delivered : Time → Uuid → Exec (List ReceiptEventData)
unfolding to_event
mark_pending_delivered now user_id = do
  receipts ← updating (Receipts.mark_pending_delivered now user_id)
  commit
  gets (λ db. map to_event (join_messages db receipts))

-- the sort key `(receipt.message.created_at, receipt.message_id)`
abbrev pub by_time : MessageReceipt × Message → MessageReceipt × Message → Bool
by_time (r, m) (r', m') =
    ltb m.created_at m'.created_at
    || ((m.created_at == m'.created_at) && ltb r.message_id r'.message_id)

unfoldable pub mark_read : Time → Uuid → Uuid → Uuid → Exec (List ReceiptEventData)
unfolding to_event
mark_read now conversation_id message_id user_id = do
  _ ← get_authorized conversation_id user_id
  found ← gets (Messages.get_by_id message_id)
  target ← or_raise found message_not_found
  raise_if (not (target.conversation_id == conversation_id)) message_not_found
  receipts ← updating (Receipts.mark_read_through now conversation_id user_id (position target))
  commit
  gets (λ db. map to_event (sort_by by_time (join_messages db receipts)))
