-- ===== src/Repositories/Messages.antt =====
-- backend/app/repositories/message_repository.py
use chatterbox.Prelude.{
  ℕ, suc, Bool, true, ◌&&◌, ◌||◌, Option, none, some, List, ◌++◌, [], ◌∷◌, filter, find?, take,
  ◌==◌, ltb, is_none,
}
use chatterbox.Prelude.Sort.{sort_by}
use chatterbox.Models.{Uuid, Time, Message, Db}

-- A place in the history of a conversation: `(created_at, id)`.
abbrev pub Cursor : Type 0
Cursor = Time × Uuid

abbrev pub position : Message → Cursor
position m = (m.created_at, m.id)

-- `created_at < t OR (created_at = t AND id < i)`
abbrev pub precedes : Cursor → Cursor → Bool
precedes (t, i) (u, j) = ltb t u || ((t == u) && ltb i j)

abbrev pub earlier : Message → Message → Bool
earlier a b = precedes (position a) (position b)

abbrev pub later : Message → Message → Bool
later a b = precedes (position b) (position a)

abbrev pub is_visible : Uuid → Message → Bool
is_visible conversation_id m = (m.conversation_id == conversation_id) && is_none m.deleted_at

abbrev pub add : Message → Db → Db
add message db = record db { messages = db.messages ++ message ∷ [] }

abbrev pub get_by_id : Uuid → Db → Option Message
get_by_id message_id db = find? (λ m. m.id == message_id) db.messages

abbrev pub head? : List Message → Option Message
head? [] = none
head? (m ∷ _) = some m

abbrev pub get_latest : Uuid → Db → Option Message
get_latest conversation_id db =
    head? (take 1 (sort_by later (filter (is_visible conversation_id) db.messages)))

-- the rows strictly before a cursor, if one is given
abbrev pub is_before : Option Cursor → Message → Bool
is_before none m = true
is_before (some c) m = precedes (position m) c

abbrev pub page_before : Uuid → ℕ → Option Cursor → Db → List Message
page_before conversation_id limit before db =
    take (suc limit)
      (sort_by later (filter (λ m. is_visible conversation_id m && is_before before m) db.messages))

abbrev pub page_after : Uuid → ℕ → Cursor → Db → List Message
page_after conversation_id limit after db = take (suc limit) (
    sort_by earlier
      (filter (λ m. is_visible conversation_id m && precedes after (position m)) db.messages))
