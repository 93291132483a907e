-- ===== src/Api.antt =====
-- backend/app/api: the HTTP routes, and the exception handlers of backend/app/core/errors.py.
pub mod Serving
pub mod Access
pub mod Handlers
pub mod Atomic
use chatterbox.Prelude.{
  ℕ, ◌+◌, ◌*◌, Bool, true, false, ◌&&◌, Option, none, some, List, [], ◌∷◌, ◌++◌, map, leb, codes,
  starts_with, if◌then◌else◌,
}
use chatterbox.Config.{Settings}
use chatterbox.Errors.{AppError, Exception, app_error, status_code, Result, ok, raised}
use chatterbox.Models.{Uuid, Time, Text, User, Attachment, Db}
use chatterbox.Session.{Exec, pure, lift, gets, request, ◌>>=◌, Stored, keeping, reading, ◌>>-◌}
use chatterbox.Repositories.Users
use chatterbox.Storage
use chatterbox.Storage.{Minio, Stream}
use chatterbox.Storage.Scanning.{Scanner}
use chatterbox.Tokens.{Jwt, Passwords}
use chatterbox.Schemas
use chatterbox.Schemas.{
  UserResponse, UserPublicResponse, AttachmentReserveRequest, MessageCreate, LoginRequest,
  user_response, user_public_response, validate_reserve, validate_message, validate_register,
  validate_login,
}
use chatterbox.Services.Auth
use chatterbox.Services.Auth.{Lifetimes, RegisterRequest, TokenResponse, get_current_user}
use chatterbox.Services.Conversation
use chatterbox.Services.Conversation.{ConversationResponse}
use chatterbox.Services.Message.{store_message}
use chatterbox.Services.History
use chatterbox.Services.History.{CursorCodec, MessageResponse, MessagePage}
use chatterbox.Services.Attachment as Uploads
use chatterbox.Services.Attachment.{AttachmentResponse, AttachmentUploadResponse}
use chatterbox.Services.Presence

-- The routes that depend on the current user, with what is in their path, query and body.
pub data Route : Type 0 where
  me list_conversations : Route
  search_users : Text → ℕ → Route
  get_user create_conversation get_conversation : Uuid → Route
  list_messages : Uuid → ℕ → Option Text → Option Text → Route
  create_message : Uuid → MessageCreate → Route
  reserve_attachment : Uuid → AttachmentReserveRequest → Route
  complete_attachment download_attachment : Uuid → Route

-- the other routes, of api/auth.py
pub data PublicRoute : Type 0 where
  register : RegisterRequest → PublicRoute
  login : LoginRequest → PublicRoute
  refresh logout : Text → PublicRoute

-- the `StreamingResponse` of a download, without its two constant headers
pub record Download : Type 0 where
  pub content : Stream
  pub media_type : Text
  pub content_length : ℕ
  pub content_disposition : Text

pub data Body : Type 0 where
  user : UserResponse → Body
  public_user : UserPublicResponse → Body
  public_users : List UserPublicResponse → Body
  conversation : ConversationResponse → Body
  conversations : List ConversationResponse → Body
  page : MessagePage → Body
  message : MessageResponse → Body
  upload : AttachmentUploadResponse → Body
  attachment : AttachmentResponse → Body
  stream : Download → Body
  tokens : TokenResponse → Body
  no_content : Body

-- A success with its status; the code of an `AppError`; VALIDATION_ERROR; or the 500 of an exception
-- for which no handler is registered.
pub data Response : Type 0 where
  success : ℕ → Body → Response
  refused : AppError → Response
  unprocessable internal : Response

abbrev pub status : Response → ℕ
status (success n b) = n
status (refused e) = status_code e
status unprocessable = 422
status internal = 500

abbrev pub handled : Exception → Response
handled (app_error e) = refused e
handled _ = internal

-- the status of a success
abbrev pub created_or_ok : Route → ℕ
created_or_ok (create_conversation u) = 201
created_or_ok (create_message c m) = 201
created_or_ok (reserve_attachment c r) = 201
created_or_ok _ = 200

-- What a call draws and what goes on beside it: the time, the `uuid4()` of a new row and of receipts,
-- what other requests commit, and what others do to the bucket.
pub record Draws (Bucket : Type 0) : Type 0 where
  pub now : Time
  pub id : Uuid
  pub receipt_id : Uuid → Uuid
  pub tokens : Auth.Draws
  pub others : Db → Db
  pub during : Bucket → Bucket
  pub between : Bucket → Bucket

-- `Query(max_length=512)` and its like
abbrev within_or_none : ℕ → Option Text → Bool
within_or_none n none = true
within_or_none n (some t) = Schemas.within 0 n t

-- The settings and the parts of the application; `before` is the order of the database's collation,
-- `email_str` the validation of pydantic's `EmailStr` and `quote` the function of urllib.
module _ (jwt : Jwt) (passwords : Passwords) (life : Lifetimes) (codec : CursorCodec)
    (settings : Settings) (minio : Minio) (scanner : Scanner) (lower quote : Text → Text)
    (email_str : Text → Option Text) (before : Text → Text → Bool) where
  open minio use {Bucket}

  -- what is in the body and the query of a call, after validation
  unfoldable pub validated : Route → Option Route
  validated (search_users q limit) =
      if Schemas.within 0 64 q && (leb 1 limit && leb limit 50)
      then some (search_users q limit)
      else none
  validated (list_messages c limit before' after) =
      if leb 1 limit && (leb limit 100 && (within_or_none 512 before' && within_or_none 512 after))
      then some (list_messages c limit before' after)
      else none
  validated (create_message c m) = elim (validate_message m) [
    | none ↦ none
    | some m' ↦ some (create_message c m')
  ]
  validated (reserve_attachment c r) = elim (validate_reserve lower r) [
    | none ↦ none
    | some r' ↦ some (reserve_attachment c r')
  ]
  validated route = some route

  -- the body of `download_attachment` behind the authorisation
  abbrev pub download : Bucket → Attachment → Exec Body
  download b a = do
    content ← lift (Storage.get minio b a.storage_key)
    let disposition =
        if starts_with (codes "image/") a.mime_type then codes "inline" else codes "attachment"
    pure (
        stream (record {
          content = content;
          media_type = a.mime_type;
          content_length = a.file_size;
          content_disposition = disposition ++ (codes "; filename*=UTF-8''" ++ quote a.filename);
        }))

  -- `MessageService.create` with its response
  abbrev pub create : Draws Bucket → Uuid → Uuid → MessageCreate → Exec Body
  create draws conversation_id user_id m = do
    created ←
        store_message settings.attachment_max_per_message draws.receipt_id draws.id draws.now
          conversation_id user_id m.content m.attachment_ids
    gets (λ db. message (History.to_response codec db created))

  abbrev pub me_handler : User → Exec Body
  me_handler u = pure (user (user_response u))

  abbrev pub search_users_handler : User → Text → ℕ → Exec Body
  search_users_handler u q limit =
      gets
        (λ db. public_users (map user_public_response (Users.search before lower q u.id limit db)))

  abbrev pub get_user_handler : Uuid → Exec Body
  get_user_handler user_id = do
    found ← Presence.get_user user_id
    pure (public_user (user_public_response found))

  abbrev pub create_conversation_handler : Draws Bucket → User → Uuid → Exec Body
  create_conversation_handler draws u participant_id = do
    c ← Conversation.create_direct draws.others draws.id draws.now u.id participant_id
    pure (conversation c)

  abbrev pub list_conversations_handler : User → Exec Body
  list_conversations_handler u = gets (λ db. conversations (Conversation.list u.id db))

  abbrev pub get_conversation_handler : User → Uuid → Exec Body
  get_conversation_handler u conversation_id = do
    found ← Conversation.get conversation_id u.id
    pure (conversation found)

  abbrev pub list_messages_handler : User → Uuid → ℕ → Option Text → Option Text → Exec Body
  list_messages_handler u conversation_id limit before' after = do
    found ← History.list codec conversation_id u.id limit before' after
    pure (page found)

  abbrev pub create_message_handler : Draws Bucket → User → Uuid → MessageCreate → Exec Body
  create_message_handler draws u conversation_id m = create draws conversation_id u.id m

  abbrev pub reserve_attachment_handler :
      Draws Bucket → User → Uuid → AttachmentReserveRequest → Exec Body
  reserve_attachment_handler draws u conversation_id r = do
    reserved ←
        Uploads.reserve minio lower settings.attachment_max_bytes
          (settings.attachment_upload_expire_minutes * 60_000_000) draws.id draws.now
          conversation_id u.id r.filename r.mime_type r.file_size
    pure (upload reserved)

  abbrev pub complete_attachment_handler : Draws Bucket → User → Uuid → Stored Bucket Body
  complete_attachment_handler draws u attachment_id =
      Uploads.complete minio lower scanner draws.during draws.between draws.now attachment_id u.id
      >>- λ answer. keeping (pure (attachment answer))

  abbrev pub download_attachment_handler : User → Uuid → Bucket → Exec Body
  download_attachment_handler u attachment_id b = do
    a ← Uploads.authorize_download minio lower attachment_id u.id
    download b a

  -- the routers, with what a call does to the bucket
  unfoldable pub handler : Draws Bucket → User → Route → Stored Bucket Body
  handler draws u me = keeping (me_handler u)
  handler draws u list_conversations = keeping (list_conversations_handler u)
  handler draws u (search_users q limit) = keeping (search_users_handler u q limit)
  handler draws u (get_user i) = keeping (get_user_handler i)
  handler draws u (create_conversation i) = keeping (create_conversation_handler draws u i)
  handler draws u (get_conversation c) = keeping (get_conversation_handler u c)
  handler draws u (list_messages c limit before' after) =
      keeping (list_messages_handler u c limit before' after)
  handler draws u (create_message c m) = keeping (create_message_handler draws u c m)
  handler draws u (reserve_attachment c r) = keeping (reserve_attachment_handler draws u c r)
  handler draws u (complete_attachment i) = complete_attachment_handler draws u i
  handler draws u (download_attachment i) = reading (download_attachment_handler u i)
