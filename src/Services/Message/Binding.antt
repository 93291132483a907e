-- ===== src/Services/Message/Binding.antt =====
-- Which attachments `MessageService.create` binds and refuses (backend/app/services/message_service.py).
use chatterbox.Prelude.{
  ℕ, Bool, true, false, none, some, List, [], ◌∷◌, ◌≡◌, ◌≢◌, ◌⊎◌, inl, inr, arith, any,
  update_where, mem, is_none, Bool-cases, Option-cases, ◌==◌, ==_iff, All,
}
use chatterbox.Prelude.Rows.{All-filter, All-imp}
use chatterbox.Errors.{Exception, Result, ok, raised, Result-cases}
use chatterbox.Models.{Uuid, Time, Text, Attachment, Message, Db}
use chatterbox.Session.{request}
use chatterbox.Repositories.Attachments
use chatterbox.Services.Conversation.{get_authorized}
use chatterbox.Services.Message.{by_id, in_order, is_unusable, store_message}

-- A request to store a message that raises leaves the database as it was.
pub store_message_raises :
    (n : ℕ) (receipt_id : Uuid → Uuid) (id : Uuid) (now : Time) (conversation_id sender_id : Uuid)
    (content : Text) (ids : List Uuid) (db db' : Db) (e : Exception)
    → request (store_message n receipt_id id now conversation_id sender_id content ids) db
      ≡ (raised e, db')
    → db' ≡ db
unfolding store_message get_authorized
store_message_raises n receipt_id id now conversation_id sender_id content ids db db' e h =
    ground arith

abbrev rows_of : Result (List Attachment) → List Attachment
rows_of (ok rows) = rows
rows_of (raised e) = []

-- The row with an id that a dict holds has what every row with the id has.
by_id_bad :
    (bad : Attachment → Bool) (i : Uuid) (rows : List Attachment) (a : Attachment)
    → All (λ x. x.id ≡ i → bad x ≡ true) rows
    → by_id i rows ≡ some a
    → bad a ≡ true
by_id_bad bad i [] a all e = cc
by_id_bad bad i (x ∷ rows) a (here, all) e = elim (Option-cases (by_id i rows)) [
  | inl nothing ↦ ground (arith, here)
  | inr (y, found) ↦ ground (arith, by_id_bad bad i rows y all found)
]

-- If every row with an id is bad, then so is one of the rows in order of ids with that id.
in_order_bad :
    (bad : Attachment → Bool) (i : Uuid) (ids : List Uuid) (rows ordered : List Attachment)
    → mem i ids ≡ true
    → All (λ x. x.id ≡ i → bad x ≡ true) rows
    → in_order ids rows ≡ ok ordered
    → any bad ordered ≡ true
unfolding in_order
in_order_bad bad i [] rows ordered h all e = cc
in_order_bad bad i (j ∷ ids) rows ordered h all e = elim (Option-cases (by_id j rows)) [
  | inl nothing ↦ ground arith
  | inr (a, found) ↦ elim (Bool-cases (j == i)) [
    | inl same ↦
        (let all' : All (λ x. x.id ≡ j → bad x ≡ true) rows = rw ((==_iff j i).0 same) all in
          ground (arith, by_id_bad bad j rows a all' found))
    | inr other ↦ elim (Result-cases (in_order ids rows)) [
      | inl (rest, more) ↦ ground (arith, in_order_bad bad i ids rows rest)
      | inr (x, failed) ↦ ground arith
    ]
  ]
]

-- Every row with an id is bound to a message.
abbrev pub IsBound : Uuid → Db → Type 0
IsBound i db = All (λ x. x.id ≡ i → is_none x.message_id ≡ false) db.attachments

-- Every row with an id is bound to the message.
abbrev pub IsBoundTo : Uuid → Uuid → Db → Type 0
IsBoundTo message_id i db = All (λ x. x.id ≡ i → x.message_id ≡ some message_id) db.attachments

-- the attachment rows that are not in a list are the same in the same places
abbrev pub KeepsOthers : List Uuid → List Attachment → List Attachment → Type 0
KeepsOthers ids [] [] = Unit
KeepsOthers ids (x ∷ xs) (y ∷ ys) = (mem x.id ids ≡ false → y ≡ x) × KeepsOthers ids xs ys
KeepsOthers ids _ _ = ⊥

bound_after :
    (i id : Uuid) (ids : List Uuid) (rows : List Attachment)
    → mem i ids ≡ true
    → All
        (λ x. x.id ≡ i → x.message_id ≡ some id)
        (update_where (λ a. mem a.id ids) (λ a. record a { message_id = some id }) rows)
bound_after i id ids [] h = tt
bound_after i id ids (x ∷ rows) h = (ground arith, bound_after i id ids rows h)

kept_after :
    (id : Uuid) (ids : List Uuid) (rows : List Attachment)
    → KeepsOthers ids rows
        (update_where (λ a. mem a.id ids) (λ a. record a { message_id = some id }) rows)
kept_after id ids [] = tt
kept_after id ids (x ∷ rows) = ((λ h. ground (arith, h)), kept_after id ids rows)

lock_for_message-All :
    (P : Attachment → Type 0) (ids : List Uuid) (db : Db)
    → All P db.attachments
    → All P (Attachments.lock_for_message ids db)
lock_for_message-All P [] db h = tt
lock_for_message-All P (i ∷ ids) db h = All-filter P (λ a. mem a.id (i ∷ ids)) db.attachments h

module _ (n : ℕ) (receipt_id : Uuid → Uuid) (id : Uuid) (now : Time)
    (conversation_id sender_id : Uuid) (content : Text) (ids : List Uuid) (db : Db) (m : Message)
    (db' : Db) where
  -- A request that stores a message has bound every attachment that it was given to the message that
  -- it returns, which has the id that was drawn, and has left every other row of an attachment as it was.
  pub store_message-IsBoundTo :
      request (store_message n receipt_id id now conversation_id sender_id content ids) db
        ≡ (ok m, db')
      → (m.id ≡ id)
        × ((i : Uuid) → mem i ids ≡ true → IsBoundTo m.id i db')
        × KeepsOthers ids db.attachments db'.attachments
  unfolding store_message get_authorized
  store_message-IsBoundTo stored = (
    ground arith,
    λ i h. ground (arith, bound_after i id ids db.attachments h),
    ground (arith, kept_after id ids db.attachments),
  )

  usable_rows :
      request (store_message n receipt_id id now conversation_id sender_id content ids) db
        ≡ (ok m, db')
      → (ordered : List Attachment) × (in_order ids (Attachments.lock_for_message ids db)
          ≡ ok ordered)
        × (any (is_unusable conversation_id sender_id) ordered ≡ false)
  unfolding store_message get_authorized
  usable_rows stored =
      (rows_of (in_order ids (Attachments.lock_for_message ids db)), ground arith, ground arith)

  -- No request stores a message with an attachment all of whose rows are unusable to its sender.
  refuses_unusable :
      (i : Uuid)
      → mem i ids ≡ true
      → All
          (λ x. x.id ≡ i → is_unusable conversation_id sender_id x ≡ true)
          (Attachments.lock_for_message ids db)
      → request (store_message n receipt_id id now conversation_id sender_id content ids) db
        ≢ (ok m, db')
  refuses_unusable i h all stored =
      let (ordered, found, fine) = usable_rows stored in
      let bad = in_order_bad (is_unusable conversation_id sender_id) i ids _ ordered h all found in
      cc

  -- No request stores a message with an attachment that is bound to a message.
  pub store_message_refuses_bound :
      (i : Uuid)
      → mem i ids ≡ true
      → IsBound i db
      → request (store_message n receipt_id id now conversation_id sender_id content ids) db
        ≢ (ok m, db')
  store_message_refuses_bound i h bound = refuses_unusable i h (
      lock_for_message-All (λ x. x.id ≡ i → is_unusable conversation_id sender_id x ≡ true) ids db
        (All-imp _ _ (λ x b e. ground (arith, b e)) db.attachments bound))

  -- No request stores a message with an attachment that someone else uploaded, that belongs to
  -- another conversation, or whose upload is not completed.
  pub store_message_refuses_foreign :
      (i : Uuid)
      → mem i ids ≡ true
      → All
          (λ x.
            x.id ≡ i
            → (x.uploader_id ≢ sender_id)
              ⊎ ((x.conversation_id ≢ conversation_id) ⊎ (x.uploaded_at ≡ none)))
          db.attachments
      → request (store_message n receipt_id id now conversation_id sender_id content ids) db
        ≢ (ok m, db')
  store_message_refuses_foreign i h foreign = refuses_unusable i h (
      lock_for_message-All (λ x. x.id ≡ i → is_unusable conversation_id sender_id x ≡ true) ids db
        (All-imp _ _ (λ x b e. ground (arith, b e)) db.attachments foreign))
