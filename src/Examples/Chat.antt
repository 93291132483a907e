-- ===== src/Examples/Chat.antt =====
-- Messages with attachments, the pages of a conversation, its creation and its receipts.
use chatterbox.Prelude.{
  get_last?, ℕ, ◌↔◌, ◌⊎◌, ◌+◌, true, mem, none, some, List, [], ◌∷◌, ◌≡◌, ◌≢◌, refl, codes, arith,
  strip, is_some, find?, ◌==◌, map,
}
use chatterbox.Errors.{app_error, ok, raised, invalid_attachments}
use chatterbox.Models.{Uuid, Conversation, Db}
use chatterbox.Session.{request}
use chatterbox.Services.Message.{store_message}
use chatterbox.Services.Message.Binding.{
  IsBound, IsBoundTo, KeepsOthers, store_message-IsBoundTo, store_message_refuses_bound,
}
use chatterbox.Services.Conversation.{get_authorized, direct_key, find_or_create_direct}
use chatterbox.Services.Conversation.Direct.{find_or_create_direct_again}
use chatterbox.Services.History.{to_response}
use chatterbox.Services.History.Ordered.{HasUniqueIds}
use chatterbox.Services.History.Pages.{MayRead, history_after, history_before}
use chatterbox.Services.History.{MessagePage, list}
use chatterbox.Services.History.Posted.{stored_is_listed}
use chatterbox.Services.History.Walk.{walk_after, walk_after_complete}
use chatterbox.Services.History.WalkBack.{walk_before, seen, walk_before_complete}
use chatterbox.Services.Receipt.{
  ReceiptEventData, mark_delivered, mark_pending_delivered, mark_read,
}
use chatterbox.Services.Receipt.Progress.{AllAdvance, receipts_advance}
use chatterbox.Repositories.Receipts.{is_unread_through, join_messages}
use chatterbox.Repositories.Receipts
use chatterbox.Prelude.Sort.{sort_by}
use chatterbox.UuidText.{str}
use chatterbox.Services.Conversation.Keys.{direct_key_iff}
use chatterbox.Services.Conversation.{direct_key}
use chatterbox.Examples.World.{codec, db, message}

abbrev receipt_id : Uuid → Uuid
receipt_id u = 900 + u

-- user 1 sends the attachments with some ids
abbrev after_send : List Uuid → Db
after_send ids = (request (store_message 10 receipt_id 104 40 50 1 (codes "hi") ids) db).1

sent :
    request (store_message 10 receipt_id 104 40 50 1 (codes "hi") (302 ∷ [])) db
    ≡ (ok (message 104 1 40), after_send (302 ∷ []))
unfolding store_message get_authorized strip
sent = refl

store_message-IsBoundTo_example :
    ((message 104 1 40).id ≡ 104)
    × ((i : Uuid) → mem i (302 ∷ []) ≡ true → IsBoundTo 104 i (after_send (302 ∷ [])))
    × KeepsOthers (302 ∷ []) db.attachments (after_send (302 ∷ [])).attachments
store_message-IsBoundTo_example =
    store_message-IsBoundTo 10 receipt_id 104 40 50 1 (codes "hi") (302 ∷ []) db (message 104 1 40)
      (after_send (302 ∷ [])) sent

IsBound-upload : IsBound 301 db
IsBound-upload = ((λ _. refl), ((λ e. absurd (omega arith)), ((λ e. absurd (omega arith)), tt)))

store_message_refuses_bound_example :
    request (store_message 10 receipt_id 104 40 50 1 (codes "hi") (301 ∷ [])) db
    ≢ (ok (message 104 1 40), db)
store_message_refuses_bound_example =
    store_message_refuses_bound 10 receipt_id 104 40 50 1 (codes "hi") (301 ∷ []) db
      (message 104 1 40) db 301 refl IsBound-upload

refused :
    request (store_message 10 receipt_id 104 40 50 1 (codes "hi") (301 ∷ [])) db
    ≡ (raised (app_error invalid_attachments), after_send (301 ∷ []))
unfolding store_message get_authorized strip
refused = refl

-- another request that commits nothing
abbrev nobody : Db → Db
nobody d = d

abbrev direct : Uuid → Uuid → Uuid → Db
direct id a b = (request (find_or_create_direct nobody id 60 a b) db).1

abbrev new_direct : Conversation
new_direct = record {
  id = 51;
  name = none;
  direct_key = some (direct_key 1 3);
  created_by = 1;
  created_at = 60;
  updated_at = 60;
}

opened : request (find_or_create_direct nobody 51 60 1 3) db ≡ (ok new_direct, direct 51 1 3)
unfolding find_or_create_direct direct_key str
opened = refl

still_there : is_some (find? (λ u. u.id == 1) (direct 51 1 3).users) ≡ true
unfolding find_or_create_direct direct_key str
still_there = refl

find_or_create_direct_again_example :
    request (find_or_create_direct nobody 52 70 3 1) (direct 51 1 3)
    ≡ (ok new_direct, direct 51 1 3)
find_or_create_direct_again_example =
    find_or_create_direct_again nobody nobody 51 52 60 70 1 3 db (direct 51 1 3) new_direct refl
      opened still_there

may_read : MayRead 50 2 db
may_read = record { exists = refl; member = refl }

unique_ids : HasUniqueIds db.messages
unique_ids = (((λ e. omega arith), ((λ e. omega arith), tt)), (((λ e. omega arith), tt), (tt, tt)))

walk_after_complete_example :
    walk_after codec 50 2 1 db 5 (codec.encode (10, 101))
    ≡ map (to_response codec db) (history_after 50 (10, 101) db)
unfolding sort_by
walk_after_complete_example =
    walk_after_complete codec 50 2 1 db 5 (10, 101) may_read unique_ids refl (refl, (refl, tt))
      (omega arith) (omega arith)

walk_before_complete_example :
    walk_before codec 50 2 1 db 5 none ≡ seen codec 50 2 1 db (history_before 50 none db)
unfolding sort_by
walk_before_complete_example =
    walk_before_complete codec 50 2 1 db 5 none may_read unique_ids refl (refl, (refl, (refl, tt)))
      (omega arith) (omega arith)

receipts_advance_example :
    AllAdvance 70 db.receipts (request (mark_delivered 70 102 (2 ∷ [])) db).1.receipts
    × AllAdvance 70 db.receipts (request (mark_pending_delivered 70 2) db).1.receipts
    × AllAdvance 70 db.receipts (request (mark_read 70 50 102 2) db).1.receipts
receipts_advance_example = receipts_advance 70 50 102 2 (2 ∷ []) db

abbrev after_read : Db
after_read = (request (mark_read 70 50 102 2) db).1

abbrev read_event : Uuid → ReceiptEventData
read_event m = record {
  message_id = m;
  conversation_id = 50;
  user_id = 2;
  delivered_at = some 70;
  read_at = some 70;
}

abbrev read_events : List ReceiptEventData
read_events = read_event 101 ∷ read_event 102 ∷ []

acknowledged : request (mark_read 70 50 102 2) db ≡ (ok read_events, after_read)
unfolding mark_read get_authorized sort_by join_messages Receipts.mark_read_through
acknowledged = refl

direct_key_iff_example :
    (direct_key 1 3 ≡ direct_key 3 1)
    ↔ (((◌≡◌ {A = ℕ} 1 3) × (◌≡◌ {A = ℕ} 3 1)) ⊎ ((◌≡◌ {A = ℕ} 1 1) × (◌≡◌ {A = ℕ} 3 3)))
direct_key_iff_example =
    direct_key_iff 1 3 3 1 (omega arith) (omega arith) (omega arith) (omega arith)

-- user 2 sees what user 1 sent
reads_on : MayRead 50 2 (after_send (302 ∷ []))
unfolding store_message get_authorized strip
reads_on = record { exists = refl; member = refl }

stored_is_listed_example :
    (page : MessagePage) × (request (list codec 50 2 20 none none) (after_send (302 ∷ []))
      ≡ (ok page, after_send (302 ∷ [])))
    × (get_last? page.items ≡ some (to_response codec (after_send (302 ∷ [])) (message 104 1 40)))
stored_is_listed_example =
    stored_is_listed codec 10 receipt_id 104 40 50 1 (codes "hi") (302 ∷ []) db
      (after_send (302 ∷ [])) (message 104 1 40) 2 20 sent (refl, (refl, (refl, tt))) reads_on
      (omega arith)
