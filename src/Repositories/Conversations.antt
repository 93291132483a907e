-- ===== src/Repositories/Conversations.antt =====
-- backend/app/repositories/conversation_repository.py
use chatterbox.Prelude.{
  ℕ, Bool, false, ◌&&◌, ◌||◌, not, Option, none, some, List, ◌++◌, [], ◌∷◌, map, filter, find?, any,
  length, from_keys, ◌==◌, ltb, text_eq, is_none,
}
use chatterbox.Prelude.Sort.{sort_by}
use chatterbox.Models.{Uuid, Text, Conversation, ConversationMember, Db}

abbrev pub get_by_id : Uuid → Db → Option Conversation
get_by_id conversation_id db = find? (λ c. c.id == conversation_id) db.conversations

abbrev pub has_key : Text → Conversation → Bool
has_key key c = elim c.direct_key [ none ↦ false | some k ↦ text_eq k key ]

abbrev pub get_direct_by_key : Text → Db → Option Conversation
get_direct_by_key key db = find? (has_key key) db.conversations

abbrev pub is_membership : Uuid → Uuid → ConversationMember → Bool
is_membership conversation_id user_id m =
    (m.conversation_id == conversation_id) && (m.user_id == user_id)

abbrev pub is_member : Uuid → Uuid → Db → Bool
is_member conversation_id user_id db = any (is_membership conversation_id user_id) db.members

-- ORDER BY updated_at DESC, id DESC
abbrev pub newer : Conversation → Conversation → Bool
newer a b = ltb b.updated_at a.updated_at || ((a.updated_at == b.updated_at) && ltb b.id a.id)

abbrev pub list_for_user : Uuid → Db → List Conversation
list_for_user user_id db = sort_by newer (filter (λ c. is_member c.id user_id db) db.conversations)

-- `Conversation.members`, and the ids that `member_ids` selects
abbrev pub members_of : Uuid → Db → List ConversationMember
members_of conversation_id db = filter (λ m. m.conversation_id == conversation_id) db.members

abbrev pub member_ids : Uuid → Db → List Uuid
member_ids conversation_id db = map (λ m. m.user_id) (members_of conversation_id db)

-- SELECT DISTINCT over the join of the memberships with themselves
abbrev pub peer_ids : Uuid → Db → List Uuid
peer_ids user_id db = from_keys [] (
    map (λ m. m.user_id)
      (filter (λ m. is_member m.conversation_id user_id db && not (m.user_id == user_id))
        db.members))

-- the join of a receipt with its message, in one conversation
abbrev pub is_in_conversation : Uuid → Uuid → Db → Bool
is_in_conversation conversation_id message_id db =
    any (λ m. (m.id == message_id) && (m.conversation_id == conversation_id)) db.messages

abbrev pub unread_count : Uuid → Uuid → Db → ℕ
unread_count conversation_id user_id db = length (
    filter
      (λ r.
        is_in_conversation conversation_id r.message_id db
        && ((r.user_id == user_id) && is_none r.read_at))
      db.receipts)

abbrev pub add : Conversation → List ConversationMember → Db → Db
add conversation members db = record db {
  conversations = db.conversations ++ conversation ∷ [];
  members = db.members ++ members;
}
