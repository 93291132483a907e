-- ===== src/Services/Conversation.antt =====
-- backend/app/services/conversation_service.py
pub mod Direct
pub mod Keys
use chatterbox.Prelude.{
  ℕ, Bool, true, false, Option, none, some, List, [], ◌∷◌, ◌++◌, map, find?, update_where, ◌==◌,
  text_lt, is_none, is_some, not, if◌then◌else◌,
}
use chatterbox.Errors.{
  AppError, Exception, integrity_error, Result, ok, raised, invalid_participant, user_not_found,
  conversation_not_found, conversation_access_denied, conversation_create_failed,
}
use chatterbox.Models.{
  Uuid, Time, Text, User, Conversation, ConversationMember, Message, Attachment, Db,
}
use chatterbox.Session.{
  Session, Exec, pure, throw, raise, lift, gets, or_raise, raise_if, modify, commit, rollback,
  ◌>>=◌, ◌>>◌,
}
use chatterbox.Repositories.Users
use chatterbox.Repositories.Messages
use chatterbox.Repositories.Conversations
use chatterbox.Repositories.Conversations.{get_direct_by_key, is_member, members_of}
use chatterbox.UuidText.{str}

-- `":".join(sorted((str(first), str(second))))`
unfoldable pub direct_key : Uuid → Uuid → Text
direct_key first second =
    if text_lt (str second) (str first)
    then str second ++ (58 ∷ str first)
    else str first ++ (58 ∷ str second)

-- schemas/conversation.py
pub record ConversationMemberResponse : Type 0 where
  pub user_id : Uuid
  pub username : Text
  pub last_seen : Option Time

pub record MessageSummary : Type 0 where
  pub id : Uuid
  pub sender_id : Uuid
  pub sender_username : Text
  pub content : Text
  pub created_at : Time

pub record ConversationResponse : Type 0 where
  pub id : Uuid
  pub name : Option Text
  pub created_by : Uuid
  pub created_at : Time
  pub updated_at : Time
  pub members : List ConversationMemberResponse
  pub last_message : Option MessageSummary
  pub unread_count : ℕ

-- The foreign keys give every row its user.
abbrev pub username_of : Uuid → Db → Text
username_of user_id db = elim (Users.get_by_id user_id db) [ none ↦ [] | some u ↦ u.username ]

abbrev pub last_seen_of : Uuid → Db → Option Time
last_seen_of user_id db = elim (Users.get_by_id user_id db) [ none ↦ none | some u ↦ u.last_seen ]

member_response : Db → ConversationMember → ConversationMemberResponse
member_response db m = record {
  user_id = m.user_id;
  username = username_of m.user_id db;
  last_seen = last_seen_of m.user_id db;
}

has_attachments : Uuid → Db → Bool
has_attachments message_id db =
    is_some
      (find? (λ a. elim a.message_id [ none ↦ false | some i ↦ i == message_id ]) db.attachments)

-- "📎 Attachment"
abbrev attachment_label : Text
attachment_label = 128206 ∷ 32 ∷ 65 ∷ 116 ∷ 116 ∷ 97 ∷ 99 ∷ 104 ∷ 109 ∷ 101 ∷ 110 ∷ 116 ∷ []

-- `latest.content or ("📎 Attachment" if latest.attachments else "")`
summary_content : Message → Db → Text
summary_content m db = elim m.content [
  | [] ↦ if has_attachments m.id db then attachment_label else []
  | c ∷ cs ↦ c ∷ cs
]

summarize : Db → Message → MessageSummary
unfolding summary_content has_attachments
summarize db m = record {
  id = m.id;
  sender_id = m.sender_id;
  sender_username = username_of m.sender_id db;
  content = summary_content m db;
  created_at = m.created_at;
}

abbrev map_option : {A B : Type 0} → (A → B) → Option A → Option B
map_option f none = none
map_option f (some a) = some (f a)

-- `_to_response`
pub to_response : Conversation → Uuid → Db → ConversationResponse
unfolding summarize member_response
to_response c current_user_id db = record {
  id = c.id;
  name = c.name;
  created_by = c.created_by;
  created_at = c.created_at;
  updated_at = c.updated_at;
  members = map (member_response db) (members_of c.id db);
  last_message = map_option (summarize db) (Messages.get_latest c.id db);
  unread_count = Conversations.unread_count c.id current_user_id db;
}

-- The INSERT at `session.commit()`, under the unique constraint on `direct_key`. `others` is what
-- other requests have committed since this one read.
insert_conversation : (Db → Db) → Text → Conversation → List ConversationMember → Exec (Unit {0})
insert_conversation others key c ms s =
    let db = others s.committed in
    let db' = Conversations.add c ms db in
    if is_some (get_direct_by_key key db)
    then (raised integrity_error, record { committed = db; working = db })
    else (ok tt, record { committed = db'; working = db' })

-- `try: ... except IntegrityError`: whether the call went through
abbrev survives_integrity_error : Exec (Unit {0}) → Exec Bool
survives_integrity_error m s =
    let (r, s') = m s in
    elim r [
      | ok _ ↦ (ok true, s')
      | raised integrity_error ↦ (ok false, s')
      | raised e ↦ (raised e, s')
    ]

-- `if existing is None: raise`, the IntegrityError once more
or_reraise : Option Conversation → Exec Conversation
or_reraise none = throw integrity_error
or_reraise (some c) = pure c

abbrev new_conversation : Uuid → Time → Text → Uuid → Conversation
new_conversation id now key current_user_id = record {
  id = id;
  name = none;
  direct_key = some key;
  created_by = current_user_id;
  created_at = now;
  updated_at = now;
}

abbrev new_members : Uuid → Time → Uuid → Uuid → List ConversationMember
new_members id now current_user_id participant_id =
    record { conversation_id = id; user_id = current_user_id; joined_at = now }
    ∷ record { conversation_id = id; user_id = participant_id; joined_at = now }
    ∷ []

-- What follows the commit: the new row, or after a rollback the row that another request wrote.
after_commit : Bool → Uuid → Text → Exec Conversation
unfolding or_reraise
after_commit true id key = do
  created ← gets (Conversations.get_by_id id)
  or_raise created conversation_create_failed
after_commit false id key = do
  rollback
  existing ← gets (get_direct_by_key key)
  or_reraise existing

-- The part of `create_direct` behind the lookup of an existing conversation. `id` is the new
-- row's `uuid4()`.
create_missing : (Db → Db) → Uuid → Time → Uuid → Uuid → Exec Conversation
unfolding insert_conversation after_commit
create_missing others id now current_user_id participant_id = do
  let key = direct_key current_user_id participant_id
  committed ← survives_integrity_error (
      insert_conversation others key (new_conversation id now key current_user_id)
        (new_members id now current_user_id participant_id))
  after_commit committed id key

or_create : Option Conversation → Exec Conversation → Exec Conversation
or_create none create = create
or_create (some existing) create = pure existing

-- The conversation that `create_direct` answers with.
unfoldable pub find_or_create_direct : (Db → Db) → Uuid → Time → Uuid → Uuid → Exec Conversation
unfolding create_missing or_create
find_or_create_direct others id now current_user_id participant_id = do
  raise_if (current_user_id == participant_id) invalid_participant
  participant ← gets (Users.get_by_id participant_id)
  raise_if (is_none participant) user_not_found
  existing ← gets (get_direct_by_key (direct_key current_user_id participant_id))
  or_create existing (create_missing others id now current_user_id participant_id)

unfoldable pub create_direct : (Db → Db) → Uuid → Time → Uuid → Uuid → Exec ConversationResponse
unfolding find_or_create_direct to_response
create_direct others id now current_user_id participant_id = do
  c ← find_or_create_direct others id now current_user_id participant_id
  gets (to_response c current_user_id)

-- `ConversationService.list`
pub list : Uuid → Db → List ConversationResponse
unfolding to_response
list current_user_id db =
    map (λ c. to_response c current_user_id db) (Conversations.list_for_user current_user_id db)

unfoldable pub get_authorized : Uuid → Uuid → Exec Conversation
get_authorized conversation_id current_user_id = do
  found ← gets (Conversations.get_by_id conversation_id)
  conversation ← or_raise found conversation_not_found
  member ← gets (is_member conversation_id current_user_id)
  raise_if (not member) conversation_access_denied
  pure conversation

unfoldable pub get : Uuid → Uuid → Exec ConversationResponse
unfolding get_authorized to_response
get conversation_id current_user_id = do
  conversation ← get_authorized conversation_id current_user_id
  gets (to_response conversation current_user_id)

-- `touch`: `updated_at` of the row
abbrev pub touch : Time → Uuid → Db → Db
touch now conversation_id db = record db {
  conversations =
      update_where (λ c. c.id == conversation_id) (λ c. record c { updated_at = now })
        db.conversations;
}
