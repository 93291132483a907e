-- ===== src/Services/Receipt/Reading.antt =====
-- What `ReceiptService.mark_read` leaves unread.
use chatterbox.Prelude.{
  Bool, true, false, some, List, [], ◌∷◌, ◌≡◌, refl, inl, inr, arith, filter, update_where,
  Bool-cases, is_some, ◌==◌, All,
}
use chatterbox.Prelude.Sort.{sort_by}
use chatterbox.Errors.{ok}
use chatterbox.Models.{Uuid, Time, Message, MessageReceipt, Db}
use chatterbox.Session.{request}
use chatterbox.Repositories.Messages
use chatterbox.Repositories.Messages.{Cursor, position}
use chatterbox.Repositories.Conversations
use chatterbox.Repositories.Receipts
use chatterbox.Repositories.Receipts.{
  is_undelivered_to, is_pending_for, is_unread_through, deliver, read, join_messages, or_now,
}
use chatterbox.Services.Conversation.{get_authorized}
use chatterbox.Services.Receipt.{mark_read, ReceiptEventData}

module _ (now : Time) (conversation_id message_id user_id : Uuid) (db : Db) where
  -- what an answered `mark_read` has done
  mark_read_answered :
      (events : List ReceiptEventData) (db' : Db) (target : Message)
      → request (mark_read now conversation_id message_id user_id) db ≡ (ok events, db')
      → Messages.get_by_id message_id db ≡ some target
      → db' ≡ record db {
        receipts =
            update_where
              (is_unread_through conversation_id user_id (position target) db)
              (read now)
              db.receipts;
      }
  unfolding mark_read get_authorized Receipts.mark_read_through
  mark_read_answered events db' target h found = ground (arith, found)

read-All :
    (now : Time) (conversation_id user_id : Uuid) (target : Cursor) (db : Db)
    (rs : List MessageReceipt)
    → All
        (λ r. is_unread_through conversation_id user_id target db r ≡ false)
        (update_where (is_unread_through conversation_id user_id target db) (read now) rs)
read-All now conversation_id user_id target db [] = tt
read-All now conversation_id user_id target db (r ∷ rs) =
    elim (Bool-cases (is_unread_through conversation_id user_id target db r)) [
      | inl e ↦ rw e (ground arith, read-All now conversation_id user_id target db rs)
      | inr e ↦ rw e (e, read-All now conversation_id user_id target db rs)
    ]

filter_none :
    (p : MessageReceipt → Bool) (rs : List MessageReceipt)
    → All (λ r. p r ≡ false) rs
    → filter p rs ≡ []
filter_none p [] h = refl
filter_none p (r ∷ rs) h = ground (arith, filter_none p rs h.1)

update_none :
    (p : MessageReceipt → Bool) (f : MessageReceipt → MessageReceipt) (rs : List MessageReceipt)
    → All (λ r. p r ≡ false) rs
    → update_where p f rs ≡ rs
update_none p f [] h = refl
update_none p f (r ∷ rs) h = ground (arith, update_none p f rs h.1)

-- After an answered `mark_read` of an existing message no receipt of the user, at or before that
-- message in the conversation, is unread.
pub mark_read_complete :
    (now : Time) (conversation_id message_id user_id : Uuid) (db db' : Db)
    (events : List ReceiptEventData) (target : Message)
    → request (mark_read now conversation_id message_id user_id) db ≡ (ok events, db')
    → Messages.get_by_id message_id db ≡ some target
    → All
        (λ r. is_unread_through conversation_id user_id (position target) db' r ≡ false)
        db'.receipts
mark_read_complete now conversation_id message_id user_id db db' events target h found =
    rw (mark_read_answered now conversation_id message_id user_id db events db' target h found)
      (read-All now conversation_id user_id (position target) db db.receipts)

-- what an answered `mark_read` has checked
may_mark :
    (now : Time) (conversation_id message_id user_id : Uuid) (db : Db)
    (events : List ReceiptEventData) (db' : Db) (target : Message)
    → request (mark_read now conversation_id message_id user_id) db ≡ (ok events, db')
    → Messages.get_by_id message_id db ≡ some target
    → (is_some (Conversations.get_by_id conversation_id db) ≡ true)
      × (Conversations.is_member conversation_id user_id db ≡ true)
      × ((target.conversation_id == conversation_id) ≡ true)
unfolding mark_read get_authorized
may_mark now conversation_id message_id user_id db events db' target h found = ground (arith, found)

nothing_to_read :
    (now : Time) (conversation_id message_id user_id : Uuid) (db : Db) (target : Message)
    → Messages.get_by_id message_id db ≡ some target
    → is_some (Conversations.get_by_id conversation_id db) ≡ true
    → Conversations.is_member conversation_id user_id db ≡ true
    → (target.conversation_id == conversation_id) ≡ true
    → filter (is_unread_through conversation_id user_id (position target) db) db.receipts ≡ []
    → update_where
        (is_unread_through conversation_id user_id (position target) db)
        (read now)
        db.receipts
      ≡ db.receipts
    → request (mark_read now conversation_id message_id user_id) db ≡ (ok [], db)
unfolding mark_read get_authorized Receipts.mark_read_through join_messages sort_by
nothing_to_read now conversation_id message_id user_id db target found exists member here none_left
      same =
    ground arith

-- After an answered `mark_read` of an existing message, another one of the same message answers with
-- no event and changes nothing.
pub mark_read_again :
    (now now' : Time) (conversation_id message_id user_id : Uuid) (db db' : Db)
    (events : List ReceiptEventData) (target : Message)
    → request (mark_read now conversation_id message_id user_id) db ≡ (ok events, db')
    → Messages.get_by_id message_id db ≡ some target
    → request (mark_read now' conversation_id message_id user_id) db' ≡ (ok [], db')
mark_read_again now now' conversation_id message_id user_id db db' events target h found =
    let is_unread : MessageReceipt → Bool =
      is_unread_through conversation_id user_id (position target) db in
    let marked : List MessageReceipt = update_where is_unread (read now) db.receipts in
    let same : db' ≡ record db { receipts = marked } =
      mark_read_answered now conversation_id message_id user_id db events db' target h found in
    let rest : All (λ r. is_unread r ≡ false) marked =
      read-All now conversation_id user_id (position target) db db.receipts in
    let (exists, member, here) =
      may_mark now conversation_id message_id user_id db events db' target h found in
    rw same (
      nothing_to_read now' conversation_id message_id user_id (record db { receipts = marked })
        target found exists member here (filter_none is_unread marked rest)
        (update_none is_unread (read now') marked rest))
