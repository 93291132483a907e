-- ===== src/Models.antt =====
-- backend/app/models: a record for each table's rows, and the database as the lists of them.
-- A UUID is its 128-bit number and a timestamp counts microseconds: the program only compares
-- them. A text is the list of its code points.
use chatterbox.Prelude.{ℕ, Option, List}

abbrev pub Uuid : Type 0
Uuid = ℕ

abbrev pub Time : Type 0
Time = ℕ

abbrev pub Text : Type 0
Text = List ℕ

-- models/user.py
pub record User : Type 0 where
  pub id : Uuid
  pub username : Text
  pub email : Text
  pub password_hash : Text
  pub created_at : Time
  pub updated_at : Time
  pub last_seen : Option Time

-- models/refresh_token.py
pub record RefreshToken : Type 0 where
  pub id : Uuid
  pub jti : Uuid
  pub user_id : Uuid
  pub expires_at : Time
  pub revoked_at : Option Time
  pub created_at : Time

-- models/conversation.py; `type` is always "direct"
pub record Conversation : Type 0 where
  pub id : Uuid
  pub name : Option Text
  pub direct_key : Option Text
  pub created_by : Uuid
  pub created_at : Time
  pub updated_at : Time

-- models/conversation_member.py; `role` is always "member"
pub record ConversationMember : Type 0 where
  pub conversation_id : Uuid
  pub user_id : Uuid
  pub joined_at : Time

-- models/message.py
pub record Message : Type 0 where
  pub id : Uuid
  pub conversation_id : Uuid
  pub sender_id : Uuid
  pub content : Text
  pub created_at : Time
  pub edited_at : Option Time
  pub deleted_at : Option Time

-- models/message_receipt.py
pub record MessageReceipt : Type 0 where
  pub id : Uuid
  pub message_id : Uuid
  pub user_id : Uuid
  pub delivered_at : Option Time
  pub read_at : Option Time

-- models/attachment.py
pub record Attachment : Type 0 where
  pub id : Uuid
  pub conversation_id : Uuid
  pub uploader_id : Uuid
  pub message_id : Option Uuid
  pub filename : Text
  pub mime_type : Text
  pub file_size : ℕ
  pub storage_key : Text
  pub created_at : Time
  pub uploaded_at : Option Time

pub record Db : Type 0 where
  pub users : List User
  pub refresh_tokens : List RefreshToken
  pub conversations : List Conversation
  pub members : List ConversationMember
  pub messages : List Message
  pub receipts : List MessageReceipt
  pub attachments : List Attachment
