-- ===== src/Services/History/Posted.antt =====
-- A message that was stored is seen: `MessageService.create`, then `list`.
use mathlib.Core.List.{reverse-cons, map-append}
use chatterbox.Prelude.{
  ℕ, zero, suc, ◌<◌, Bool, true, none, some, List, [], ◌∷◌, ◌++◌, map, reverse, take, get_last?,
  filter, All, ◌≡◌, ◌&&◌, refl, arith,
}
use chatterbox.Prelude.Every.{filter-append}
use chatterbox.Prelude.Rows.{All-filter}
use chatterbox.Prelude.Sort.{sort_by, insert_by}
use chatterbox.Errors.{ok}
use chatterbox.Models.{Uuid, Time, Text, Message, Db}
use chatterbox.Session.{request}
use chatterbox.Repositories.Messages.{position, precedes, later, is_visible, is_before, page_before}
use chatterbox.Services.Conversation.{get_authorized}
use chatterbox.Services.Message.{store_message, new_message}
use chatterbox.Services.History.{CursorCodec, MessagePage, to_response, page_backward, list}
use chatterbox.Services.History.Pages.{MayRead, list_before_page}

-- what comes before all the others is first
sort_by-last {ℓ} :
    {A : Type ℓ} (before : A → A → Bool) (m : A) (xs : List A)
    → All (λ x. before m x ≡ true) xs
    → sort_by before (xs ++ m ∷ []) ≡ m ∷ sort_by before xs
unfolding sort_by insert_by
sort_by-last before m [] h = refl
sort_by-last before m (x ∷ xs) h = rw (sort_by-last before m xs h.1, h.0) refl

get_last?-append {ℓ} : {A : Type ℓ} (xs : List A) (m : A) → get_last? (xs ++ m ∷ []) ≡ some m
get_last?-append [] m = refl
get_last?-append (x ∷ []) m = refl
get_last?-append (x ∷ y ∷ xs) m = get_last?-append (y ∷ xs) m

module _ (codec : CursorCodec) (n : ℕ) (receipt_id : Uuid → Uuid) (id : Uuid) (now : Time)
    (conversation_id sender_id : Uuid) (content : Text) (ids : List Uuid) (db db' : Db)
    (m : Message) where
  stored_last :
      request (store_message n receipt_id id now conversation_id sender_id content ids) db
        ≡ (ok m, db')
      → (db'.messages ≡ db.messages ++ m ∷ [])
        × (m ≡ new_message id now conversation_id sender_id content)
  unfolding store_message get_authorized
  stored_last stored = ground arith

  abbrev listed : Message → Bool
  listed x = is_visible conversation_id x && is_before none x

  newest_first :
      db'.messages ≡ db.messages ++ m ∷ []
      → m ≡ new_message id now conversation_id sender_id content
      → All (λ x. precedes (position x) (now, id) ≡ true) db.messages
      → sort_by later (filter listed db'.messages) ≡ m ∷ sort_by later (filter listed db.messages)
  newest_first rows made newest =
      let seen : listed m ≡ true = rw made (ground arith) in
      let later_than : All (λ x. later m x ≡ true) db.messages = rw made newest in
      rw (rows, filter-append listed db.messages (m ∷ []), seen)
        (sort_by-last later m (filter listed db.messages)
          (All-filter (λ x. later m x ≡ true) listed db.messages later_than))

  last_item :
      (limit : ℕ) (rest : List Message)
      → 0 < limit
      → get_last? (page_backward codec limit db' (take (suc limit) (m ∷ rest))).items
        ≡ some (to_response codec db' m)
  unfolding page_backward
  last_item zero rest pos = absurd (omega (arith, pos))
  last_item (suc k) rest pos =
      let shown : List Message = take k (take (suc k) rest) in
      rw (reverse-cons m shown, map-append (to_response codec db') (reverse shown) (m ∷ []))
        (get_last?-append (map (to_response codec db') (reverse shown)) (to_response codec db' m))

  -- Once a request has stored a message, the newest page that any member asks for ends with it, if
  -- the request's time and id are after those of the messages that were there.
  pub stored_is_listed :
      (user_id : Uuid) (limit : ℕ)
      → request (store_message n receipt_id id now conversation_id sender_id content ids) db
        ≡ (ok m, db')
      → All (λ x. precedes (position x) (now, id) ≡ true) db.messages
      → MayRead conversation_id user_id db'
      → 0 < limit
      → (page : MessagePage) × (request (list codec conversation_id user_id limit none none) db'
          ≡ (ok page, db'))
        × (get_last? page.items ≡ some (to_response codec db' m))
  stored_is_listed user_id limit stored newest may pos =
      let (rows, made) = stored_last stored in
      (
        page_backward codec limit db' (page_before conversation_id limit none db'),
        list_before_page codec conversation_id user_id limit db' none refl may,
        rw (newest_first rows made newest)
            (last_item limit (sort_by later (filter listed db.messages)) pos),
      )
