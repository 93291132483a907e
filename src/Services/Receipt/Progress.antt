-- ===== src/Services/Receipt/Progress.antt =====
-- What the updates of `ReceiptService` may do to a receipt.
use chatterbox.Prelude.{
  Bool, true, Option, none, some, List, [], ◌∷◌, ◌≡◌, refl, ◌⊎◌, inl, inr, Option-cases, arith,
  update_where, Bool-cases, is_none,
}
use chatterbox.Models.{Uuid, Time, Message, MessageReceipt, Db}
use chatterbox.Session.{request}
use chatterbox.Repositories.Messages
use chatterbox.Repositories.Messages.{Cursor, position}
use chatterbox.Repositories.Receipts
use chatterbox.Repositories.Receipts.{
  is_undelivered_to, is_pending_for, is_unread_through, deliver, read, join_messages, or_now,
}
use chatterbox.Services.Conversation.{get_authorized}
use chatterbox.Services.Receipt.{mark_delivered, mark_pending_delivered, mark_read}

-- What may happen to one receipt: a time that is set stays, and one that is set anew is `now`.
abbrev pub Keeps : Time → Option Time → Option Time → Type 0
Keeps now none after = (after ≡ none) ⊎ (after ≡ some now)
Keeps now (some t) after = after ≡ some t

pub record Advances (now : Time) (r r' : MessageReceipt) : Type 0 where
  pub same_id : r'.id ≡ r.id
  pub same_message : r'.message_id ≡ r.message_id
  pub same_user : r'.user_id ≡ r.user_id
  pub delivered : Keeps now r.delivered_at r'.delivered_at
  pub read_once : Keeps now r.read_at r'.read_at

-- Row by row.
abbrev pub AllAdvance : Time → List MessageReceipt → List MessageReceipt → Type 0
AllAdvance now [] [] = Unit
AllAdvance now [] (r ∷ rs) = ⊥
AllAdvance now (r ∷ rs) [] = ⊥
AllAdvance now (r ∷ rs) (r' ∷ rs') = Advances now r r' × AllAdvance now rs rs'

Keeps-refl : (now : Time) (o : Option Time) → Keeps now o o
Keeps-refl now none = inl refl
Keeps-refl now (some t) = refl

Keeps-or_now : (now : Time) (o : Option Time) → Keeps now o (or_now o now)
Keeps-or_now now none = inr refl
Keeps-or_now now (some t) = refl

Keeps-set : (now : Time) (o : Option Time) → is_none o ≡ true → Keeps now o (some now)
Keeps-set now none h = inr refl
Keeps-set now (some t) h = cc

Advances-refl : (now : Time) (r : MessageReceipt) → Advances now r r
Advances-refl now r = record {
  same_id = refl;
  same_message = refl;
  same_user = refl;
  delivered = Keeps-refl now r.delivered_at;
  read_once = Keeps-refl now r.read_at;
}

Advances-deliver :
    (now : Time) (r : MessageReceipt)
    → is_none r.delivered_at ≡ true
    → Advances now r (deliver now r)
Advances-deliver now r h = record {
  same_id = refl;
  same_message = refl;
  same_user = refl;
  delivered = Keeps-set now r.delivered_at h;
  read_once = Keeps-refl now r.read_at;
}

Advances-read :
    (now : Time) (r : MessageReceipt) → is_none r.read_at ≡ true → Advances now r (read now r)
Advances-read now r h = record {
  same_id = refl;
  same_message = refl;
  same_user = refl;
  delivered = Keeps-or_now now r.delivered_at;
  read_once = Keeps-set now r.read_at h;
}

update_where-AllAdvance :
    (now : Time) (p : MessageReceipt → Bool) (f : MessageReceipt → MessageReceipt)
    → ((r : MessageReceipt) → p r ≡ true → Advances now r (f r))
    → (rs : List MessageReceipt) → AllAdvance now rs (update_where p f rs)
update_where-AllAdvance now p f step [] = tt
update_where-AllAdvance now p f step (r ∷ rs) = elim (Bool-cases (p r)) [
  | inl e ↦ rw e (step r e, update_where-AllAdvance now p f step rs)
  | inr e ↦ rw e (Advances-refl now r, update_where-AllAdvance now p f step rs)
]

AllAdvance-refl : (now : Time) (rs : List MessageReceipt) → AllAdvance now rs rs
AllAdvance-refl now [] = tt
AllAdvance-refl now (r ∷ rs) = (Advances-refl now r, AllAdvance-refl now rs)

pub mark_delivered-AllAdvance :
    (now : Time) (message_id : Uuid) (user_ids : List Uuid) (db : Db)
    → AllAdvance now db.receipts (request (mark_delivered now message_id user_ids) db).1.receipts
unfolding mark_delivered Receipts.mark_delivered
mark_delivered-AllAdvance now message_id [] db = AllAdvance-refl now db.receipts
mark_delivered-AllAdvance now message_id (u ∷ us) db =
    update_where-AllAdvance now (is_undelivered_to message_id (u ∷ us)) (deliver now)
      (λ r e. Advances-deliver now r (ground arith)) db.receipts

mark_pending_delivered-AllAdvance :
    (now : Time) (user_id : Uuid) (db : Db)
    → AllAdvance now db.receipts (request (mark_pending_delivered now user_id) db).1.receipts
unfolding mark_pending_delivered Receipts.mark_pending_delivered
mark_pending_delivered-AllAdvance now user_id db =
    update_where-AllAdvance now (is_pending_for user_id) (deliver now)
      (λ r e. Advances-deliver now r (ground arith)) db.receipts

module _ (now : Time) (conversation_id message_id user_id : Uuid) (db : Db) where
  -- the receipts after a `mark_read`, by how it ended
  mark_read_receipts :
      (target : Message)
      → Messages.get_by_id message_id db ≡ some target
      → ((request (mark_read now conversation_id message_id user_id) db).1 ≡ db)
        ⊎ ((request (mark_read now conversation_id message_id user_id) db).1 ≡ record db {
          receipts =
              update_where
                (is_unread_through conversation_id user_id (position target) db)
                (read now)
                db.receipts;
        })
  unfolding mark_read get_authorized Receipts.mark_read_through
  mark_read_receipts target found = ground (arith, found)

  mark_read_no_target :
      Messages.get_by_id message_id db ≡ none
      → (request (mark_read now conversation_id message_id user_id) db).1 ≡ db
  unfolding mark_read get_authorized
  mark_read_no_target found = ground (arith, found)

  mark_read-AllAdvance :
      AllAdvance now db.receipts
        (request (mark_read now conversation_id message_id user_id) db).1.receipts
  mark_read-AllAdvance = elim (Option-cases (Messages.get_by_id message_id db)) [
    | inl nothing ↦ rw (mark_read_no_target nothing) (AllAdvance-refl now db.receipts)
    | inr (target, found) ↦ elim (mark_read_receipts target found) [
      | inl same ↦ rw same (AllAdvance-refl now db.receipts)
      | inr marked ↦ rw marked (
          update_where-AllAdvance now
            (is_unread_through conversation_id user_id (position target) db) (read now)
            (λ r e. Advances-read now r (ground arith)) db.receipts)
    ]
  ]

-- `mark_delivered`, `mark_pending_delivered` and `mark_read`, whether it answers or raises, add or
-- remove no receipt and change of each only its two times: a time that is set stays, and one that is
-- set anew is `now`.
pub receipts_advance :
    (now : Time) (conversation_id message_id user_id : Uuid) (user_ids : List Uuid) (db : Db)
    → AllAdvance now db.receipts (request (mark_delivered now message_id user_ids) db).1.receipts
      × AllAdvance now db.receipts (request (mark_pending_delivered now user_id) db).1.receipts
      × AllAdvance now db.receipts
          (request (mark_read now conversation_id message_id user_id) db).1.receipts
receipts_advance now conversation_id message_id user_id user_ids db = (
  mark_delivered-AllAdvance now message_id user_ids db,
  mark_pending_delivered-AllAdvance now user_id db,
  mark_read-AllAdvance now conversation_id message_id user_id db,
)
