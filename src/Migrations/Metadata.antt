-- ===== src/Migrations/Metadata.antt =====
-- The tables that the classes of backend/app/models declare, and when tables agree with them: the
-- order of columns, constraints and indexes has no meaning.
use chatterbox.Prelude.{Bool, true, false, none, some, List, [], ◌∷◌, ◌++◌, String, codes}
use chatterbox.Migrations.Catalog.{
  uuid, date_time, big_integer, string, cascade, restrict, primary_key, unique_key, check_in, Index,
  Table,
}
use chatterbox.Migrations.Revisions.{column, stamp, id_of, key}

-- the index of a column with index=True; unique=True makes it unique
abbrev indexed : String → String → Bool → Index
indexed table col unique = record {
  name = codes "ix_" ++ (codes table ++ (codes "_" ++ codes col));
  columns = codes col ∷ [];
  unique = unique;
}

pub declared_users : Table
declared_users = record {
  name = codes "users";
  columns =
      column "id" uuid false
      ∷ column "username" (string 32) false
      ∷ column "email" (string 320) false
      ∷ column "password_hash" (string 255) false
      ∷ stamp "created_at"
      ∷ stamp "updated_at"
      ∷ column "last_seen" date_time true
      ∷ [];
  constraints = key "id" ∷ [];
  indexes = indexed "users" "username" true ∷ indexed "users" "email" true ∷ [];
}

pub declared_refresh_tokens : Table
declared_refresh_tokens = record {
  name = codes "refresh_tokens";
  columns =
      column "id" uuid false
      ∷ column "jti" uuid false
      ∷ column "user_id" uuid false
      ∷ column "expires_at" date_time false
      ∷ column "revoked_at" date_time true
      ∷ stamp "created_at"
      ∷ [];
  constraints = key "id" ∷ id_of "user_id" "users" cascade ∷ [];
  indexes = indexed "refresh_tokens" "jti" true ∷ indexed "refresh_tokens" "user_id" false ∷ [];
}

pub declared_conversations : Table
declared_conversations = record {
  name = codes "conversations";
  columns =
      column "id" uuid false
      ∷ column "type" (string 16) false
      ∷ column "name" (string 120) true
      ∷ column "direct_key" (string 73) true
      ∷ column "created_by" uuid false
      ∷ stamp "created_at"
      ∷ stamp "updated_at"
      ∷ [];
  constraints =
      check_in (codes "ck_conversations_type") (codes "type") (codes "direct" ∷ [])
      ∷ key "id"
      ∷ unique_key none (codes "direct_key" ∷ [])
      ∷ id_of "created_by" "users" restrict
      ∷ [];
  indexes = indexed "conversations" "created_by" false ∷ [];
}

pub declared_conversation_members : Table
declared_conversation_members = record {
  name = codes "conversation_members";
  columns =
      column "conversation_id" uuid false
      ∷ column "user_id" uuid false
      ∷ column "role" (string 16) false
      ∷ stamp "joined_at"
      ∷ [];
  constraints =
      primary_key (codes "conversation_id" ∷ codes "user_id" ∷ [])
      ∷ id_of "conversation_id" "conversations" cascade
      ∷ id_of "user_id" "users" cascade
      ∷ [];
  indexes = indexed "conversation_members" "user_id" false ∷ [];
}

pub declared_messages : Table
declared_messages = record {
  name = codes "messages";
  columns =
      column "id" uuid false
      ∷ column "conversation_id" uuid false
      ∷ column "sender_id" uuid false
      ∷ column "content" (string 4000) false
      ∷ stamp "created_at"
      ∷ column "edited_at" date_time true
      ∷ column "deleted_at" date_time true
      ∷ [];
  constraints =
      key "id"
      ∷ id_of "conversation_id" "conversations" cascade
      ∷ id_of "sender_id" "users" restrict
      ∷ [];
  indexes =
      record {
        name = codes "ix_messages_conversation_created_id";
        columns = codes "conversation_id" ∷ codes "created_at" ∷ codes "id" ∷ [];
        unique = false;
      }
      ∷ indexed "messages" "conversation_id" false
      ∷ indexed "messages" "sender_id" false
      ∷ [];
}

pub declared_message_receipts : Table
declared_message_receipts = record {
  name = codes "message_receipts";
  columns =
      column "id" uuid false
      ∷ column "message_id" uuid false
      ∷ column "user_id" uuid false
      ∷ column "delivered_at" date_time true
      ∷ column "read_at" date_time true
      ∷ [];
  constraints =
      unique_key (some (codes "uq_message_receipts_message_user"))
        (codes "message_id" ∷ codes "user_id" ∷ [])
      ∷ key "id"
      ∷ id_of "message_id" "messages" cascade
      ∷ id_of "user_id" "users" cascade
      ∷ [];
  indexes =
      indexed "message_receipts" "message_id" false
      ∷ indexed "message_receipts" "user_id" false
      ∷ [];
}

pub declared_attachments : Table
declared_attachments = record {
  name = codes "attachments";
  columns =
      column "id" uuid false
      ∷ column "conversation_id" uuid false
      ∷ column "uploader_id" uuid false
      ∷ column "message_id" uuid true
      ∷ column "filename" (string 255) false
      ∷ column "mime_type" (string 120) false
      ∷ column "file_size" big_integer false
      ∷ column "storage_key" (string 512) false
      ∷ stamp "created_at"
      ∷ column "uploaded_at" date_time true
      ∷ [];
  constraints =
      key "id"
      ∷ id_of "conversation_id" "conversations" cascade
      ∷ id_of "uploader_id" "users" cascade
      ∷ id_of "message_id" "messages" cascade
      ∷ unique_key none (codes "storage_key" ∷ [])
      ∷ [];
  indexes =
      record {
        name = codes "ix_attachments_pending_cleanup";
        columns = codes "message_id" ∷ codes "created_at" ∷ [];
        unique = false;
      }
      ∷ indexed "attachments" "conversation_id" false
      ∷ indexed "attachments" "uploader_id" false
      ∷ indexed "attachments" "message_id" false
      ∷ [];
}

-- `Base.metadata`
unfoldable pub metadata : List Table
unfolding declared_users declared_refresh_tokens declared_conversations
    declared_conversation_members declared_messages declared_message_receipts declared_attachments
metadata =
    declared_users ∷ declared_refresh_tokens ∷ declared_conversations
    ∷ declared_conversation_members ∷ declared_messages ∷ declared_message_receipts
    ∷ declared_attachments ∷ []
