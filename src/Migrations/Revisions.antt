-- ===== src/Migrations/Revisions.antt =====
-- The four revisions of backend/alembic/versions: the calls of `op` that `upgrade` and `downgrade`
-- make, in order, and the revision that each comes after.
use chatterbox.Prelude.{
  ℕ, zero, suc, Bool, true, false, Option, none, some, List, [], ◌∷◌, ◌++◌, map, String, codes,
}
use chatterbox.Migrations.Catalog.{
  ColumnType, uuid, date_time, big_integer, string, Column, OnDelete, cascade, restrict, Constraint,
  primary_key, foreign_key, unique_key, check_in, Operation, create_table, create_index, add_column,
  drop_table, drop_column,
}

-- sa.Column(name, type, nullable=nullable)
abbrev pub column : String → ColumnType → Bool → Column
column n t nullable = record {
  name = codes n;
  column_type = t;
  nullable = nullable;
  server_now = false;
}

-- sa.Column(name, sa.DateTime(timezone=True), server_default=sa.func.now(), nullable=False)
abbrev pub stamp : String → Column
stamp n = record { name = codes n; column_type = date_time; nullable = false; server_now = true }

-- sa.ForeignKeyConstraint([col], ["<target>.id"], ondelete=...)
abbrev pub id_of : String → String → OnDelete → Constraint
id_of col target d = foreign_key (codes col) (codes target) (codes "id") d

abbrev pub key : String → Constraint
key n = primary_key (codes n ∷ [])

-- op.create_index(name, table, columns, unique=unique)
abbrev pub index : String → String → List String → Bool → Operation
index n t cols unique =
    create_index (codes t) (record { name = codes n; columns = map codes cols; unique = unique })

pub data Revision : Type 0 where
  create_users direct_messaging presence_receipts message_attachments : Revision

pub create_users_upgrade : List Operation
create_users_upgrade =
    create_table (codes "users")
      (column "id" uuid false
        ∷ column "username" (string 32) false
        ∷ column "email" (string 320) false
        ∷ column "password_hash" (string 255) false
        ∷ stamp "created_at"
        ∷ stamp "updated_at"
        ∷ [])
      (key "id" ∷ [])
    ∷ index "ix_users_email" "users" ("email" ∷ []) true
    ∷ index "ix_users_username" "users" ("username" ∷ []) true
    ∷ create_table (codes "refresh_tokens")
        (column "id" uuid false
          ∷ column "jti" uuid false
          ∷ column "user_id" uuid false
          ∷ column "expires_at" date_time false
          ∷ column "revoked_at" date_time true
          ∷ stamp "created_at"
          ∷ [])
        (id_of "user_id" "users" cascade ∷ key "id" ∷ [])
    ∷ index "ix_refresh_tokens_jti" "refresh_tokens" ("jti" ∷ []) true
    ∷ index "ix_refresh_tokens_user_id" "refresh_tokens" ("user_id" ∷ []) false
    ∷ []

pub create_users_downgrade : List Operation
create_users_downgrade = drop_table (codes "refresh_tokens") ∷ drop_table (codes "users") ∷ []

pub direct_messaging_upgrade : List Operation
direct_messaging_upgrade =
    create_table (codes "conversations")
      (column "id" uuid false
        ∷ column "type" (string 16) false
        ∷ column "name" (string 120) true
        ∷ column "direct_key" (string 73) true
        ∷ column "created_by" uuid false
        ∷ stamp "created_at"
        ∷ stamp "updated_at"
        ∷ [])
      (check_in (codes "ck_conversations_type") (codes "type") (codes "direct" ∷ [])
        ∷ id_of "created_by" "users" restrict
        ∷ key "id"
        ∷ unique_key none (codes "direct_key" ∷ [])
        ∷ [])
    ∷ index "ix_conversations_created_by" "conversations" ("created_by" ∷ []) false
    ∷ create_table (codes "conversation_members")
        (column "conversation_id" uuid false
          ∷ column "user_id" uuid false
          ∷ column "role" (string 16) false
          ∷ stamp "joined_at"
          ∷ [])
        (id_of "conversation_id" "conversations" cascade
          ∷ id_of "user_id" "users" cascade
          ∷ primary_key (codes "conversation_id" ∷ codes "user_id" ∷ [])
          ∷ [])
    ∷ index "ix_conversation_members_user_id" "conversation_members" ("user_id" ∷ []) false
    ∷ create_table (codes "messages")
        (column "id" uuid false
          ∷ column "conversation_id" uuid false
          ∷ column "sender_id" uuid false
          ∷ column "content" (string 4000) false
          ∷ stamp "created_at"
          ∷ column "edited_at" date_time true
          ∷ column "deleted_at" date_time true
          ∷ [])
        (id_of "conversation_id" "conversations" cascade
          ∷ id_of "sender_id" "users" restrict
          ∷ key "id"
          ∷ [])
    ∷ index "ix_messages_conversation_id" "messages" ("conversation_id" ∷ []) false
    ∷ index "ix_messages_sender_id" "messages" ("sender_id" ∷ []) false
    ∷ index "ix_messages_conversation_created_id" "messages"
        ("conversation_id" ∷ "created_at" ∷ "id" ∷ []) false
    ∷ []

pub direct_messaging_downgrade : List Operation
direct_messaging_downgrade =
    drop_table (codes "messages")
    ∷ drop_table (codes "conversation_members")
    ∷ drop_table (codes "conversations")
    ∷ []

pub presence_receipts_upgrade : List Operation
presence_receipts_upgrade =
    add_column (codes "users") (column "last_seen" date_time true)
    ∷ create_table (codes "message_receipts")
        (column "id" uuid false
          ∷ column "message_id" uuid false
          ∷ column "user_id" uuid false
          ∷ column "delivered_at" date_time true
          ∷ column "read_at" date_time true
          ∷ [])
        (id_of "message_id" "messages" cascade
          ∷ id_of "user_id" "users" cascade
          ∷ key "id"
          ∷ unique_key (some (codes "uq_message_receipts_message_user"))
              (codes "message_id" ∷ codes "user_id" ∷ [])
          ∷ [])
    ∷ index "ix_message_receipts_message_id" "message_receipts" ("message_id" ∷ []) false
    ∷ index "ix_message_receipts_user_id" "message_receipts" ("user_id" ∷ []) false
    ∷ []

pub presence_receipts_downgrade : List Operation
presence_receipts_downgrade =
    drop_table (codes "message_receipts") ∷ drop_column (codes "users") (codes "last_seen") ∷ []

pub message_attachments_upgrade : List Operation
message_attachments_upgrade =
    create_table (codes "attachments")
      (column "id" uuid false
        ∷ column "conversation_id" uuid false
        ∷ column "uploader_id" uuid false
        ∷ column "message_id" uuid true
        ∷ column "filename" (string 255) false
        ∷ column "mime_type" (string 120) false
        ∷ column "file_size" big_integer false
        ∷ column "storage_key" (string 512) false
        ∷ stamp "created_at"
        ∷ column "uploaded_at" date_time true
        ∷ [])
      (id_of "conversation_id" "conversations" cascade
        ∷ id_of "message_id" "messages" cascade
        ∷ id_of "uploader_id" "users" cascade
        ∷ key "id"
        ∷ unique_key none (codes "storage_key" ∷ [])
        ∷ [])
    ∷ index "ix_attachments_conversation_id" "attachments" ("conversation_id" ∷ []) false
    ∷ index "ix_attachments_message_id" "attachments" ("message_id" ∷ []) false
    ∷ index "ix_attachments_uploader_id" "attachments" ("uploader_id" ∷ []) false
    ∷ index "ix_attachments_pending_cleanup" "attachments" ("message_id" ∷ "created_at" ∷ []) false
    ∷ []

pub message_attachments_downgrade : List Operation
message_attachments_downgrade = drop_table (codes "attachments") ∷ []

unfoldable pub upgrade : Revision → List Operation
unfolding create_users_upgrade direct_messaging_upgrade presence_receipts_upgrade
    message_attachments_upgrade
upgrade create_users = create_users_upgrade
upgrade direct_messaging = direct_messaging_upgrade
upgrade presence_receipts = presence_receipts_upgrade
upgrade message_attachments = message_attachments_upgrade

unfoldable pub downgrade : Revision → List Operation
unfolding create_users_downgrade direct_messaging_downgrade presence_receipts_downgrade
    message_attachments_downgrade
downgrade create_users = create_users_downgrade
downgrade direct_messaging = direct_messaging_downgrade
downgrade presence_receipts = presence_receipts_downgrade
downgrade message_attachments = message_attachments_downgrade

unfoldable pub down_revision : Revision → Option Revision
down_revision create_users = none
down_revision direct_messaging = some create_users
down_revision presence_receipts = some direct_messaging
down_revision message_attachments = some presence_receipts

-- The revisions that lead to one, the first first. There are four, so that four rounds are enough.
unfoldable pub history_within : ℕ → Option Revision → List Revision
history_within zero r = []
history_within (suc n) none = []
history_within (suc n) (some r) = history_within n (down_revision r) ++ r ∷ []

unfoldable pub history : Revision → List Revision
unfolding history_within down_revision
history r = history_within 4 (some r)
