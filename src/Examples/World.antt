-- ===== src/Examples/World.antt =====
-- Concrete instances of what the program takes from elsewhere, and a small database.
use chatterbox.Prelude.{
  true, ℕ, zero, suc, ◌+◌, ◌≤◌, Bool, false, Option, none, some, [], ◌∷◌, ◌≡◌, refl, arith, ltb,
  codes, text_eq, text_eq_iff, ◌≢◌, if◌then◌else◌,
}
use chatterbox.Prelude.Dict.{Eq, Dict, lookup, put, remove}
use chatterbox.Config.{Settings}
use chatterbox.Errors.{app_error, invalid_cursor, Result, ok, raised}
use chatterbox.Models.{
  Uuid, Time, Text, User, Conversation, ConversationMember, Message, MessageReceipt, Attachment, Db,
}
use chatterbox.Repositories.Messages.{Cursor}
use chatterbox.Services.Auth.{Lifetimes}
use chatterbox.Services.History.{CursorCodec}
use chatterbox.Storage.{Minio, S3Result, Stat, Stream, done, s3_error}
use chatterbox.Tokens.{Jwt, Passwords, TokenType, Claims}

-- a token written as the numbers of its claims
abbrev option_code : Option ℕ → ℕ
option_code none = 0
option_code (some n) = suc n

abbrev code_option : ℕ → Option ℕ
code_option zero = none
code_option (suc n) = some n

abbrev type_code : TokenType → ℕ
type_code TokenType.access = 0
type_code TokenType.refresh = 1
type_code TokenType.other = 2

abbrev code_type : ℕ → TokenType
code_type zero = TokenType.access
code_type (suc zero) = TokenType.refresh
code_type (suc (suc n)) = TokenType.other

abbrev encode_claims : Claims → Text
encode_claims c =
    option_code c.sub ∷ type_code c.token_type ∷ option_code c.jti ∷ c.iat ∷ option_code c.exp ∷ []

abbrev unexpired : Time → Claims → Option ℕ → Option Claims
unexpired now c none = none
unexpired now c (some e) = if ltb now e then some c else none

abbrev decode_claims : Time → Text → Option Claims
decode_claims now (s ∷ t ∷ j ∷ i ∷ e ∷ []) =
    unexpired now
      (record {
        sub = code_option s;
        token_type = code_type t;
        jti = code_option j;
        iat = i;
        exp = code_option e;
      })
      (code_option e)
decode_claims now _ = none

type_code_inv : (t : TokenType) → code_type (type_code t) ≡ t
type_code_inv TokenType.access = refl
type_code_inv TokenType.refresh = refl
type_code_inv TokenType.other = refl

option_code_inv : (o : Option ℕ) → code_option (option_code o) ≡ o
option_code_inv none = refl
option_code_inv (some n) = refl

pub decode-encode_claims :
    (now : Time) (c : Claims) (e : Time)
    → c.exp ≡ some e
    → now + 1_000_000 ≤ e
    → (p : Claims) × (decode_claims now (encode_claims c) ≡ some p)
      × (p.sub ≡ c.sub)
      × (p.token_type ≡ c.token_type)
      × (p.jti ≡ c.jti)
      × ((x : Time) × (p.exp ≡ some x))
decode-encode_claims now c e exp later = (
  c,
  ground
      (arith, exp, later, option_code_inv c.sub, option_code_inv c.jti, type_code_inv c.token_type),
  refl,
  refl,
  refl,
  (e, exp),
)

pub decode_claims_stable :
    (now now' : Time) (t : Text) (p q : Claims)
    → decode_claims now t ≡ some p
    → decode_claims now' t ≡ some q
    → p ≡ q
decode_claims_stable now now' t p q hp hq = ground arith

abbrev pub jwt : Jwt
jwt = record {
  encode = encode_claims;
  decode = decode_claims;
  decode-encode = decode-encode_claims;
  decode_stable = decode_claims_stable;
}

-- a password hash that is the salt before the password
abbrev verify_hash : Text → Text → Bool
verify_hash password [] = false
verify_hash password (salt ∷ hashed) = text_eq password hashed

abbrev pub passwords : Passwords
passwords = record {
  hash = λ salt password. salt ∷ password;
  verify = verify_hash;
  verify-hash = λ salt password. (text_eq_iff password password).1 refl;
}

abbrev pub life : Lifetimes
life = record { access = 60_000_000; refresh = 600_000_000 }

abbrev read_cursor : Text → Result Cursor
read_cursor (t ∷ i ∷ []) = ok (t, i)
read_cursor _ = raised (app_error invalid_cursor)

pub write_cursor_nonempty : (c : Cursor) → (c.0 ∷ c.1 ∷ []) ≢ []
write_cursor_nonempty c e = cc

abbrev pub codec : CursorCodec
codec = record {
  writable = λ c. true;
  encode = λ c. c.0 ∷ c.1 ∷ [];
  decode = read_cursor;
  decode-encode = λ c w. refl;
  encode_nonempty = write_cursor_nonempty;
}

instance abbrev text_key : Eq Text
text_key = record { beq = text_eq; beq_iff = text_eq_iff }

-- a bucket as a dict from keys to objects
abbrev no_such_key : {A : Type 0} → S3Result A
no_such_key = s3_error (codes "NoSuchKey")

abbrev stat_found : Option Stat → S3Result Stat
stat_found none = no_such_key
stat_found (some o) = done o

abbrev stream_found : Option Stat → S3Result Stream
stream_found none = no_such_key
stream_found (some o) = done (record { chunks = codes "PK" ∷ codes "!" ∷ []; breaks = false })

abbrev copy_found : Dict Text Stat → Text → Text → Option Stat → S3Result (Dict Text Stat)
copy_found b to etag none = no_such_key
copy_found b to etag (some o) =
    if text_eq o.etag etag then done (put to o b) else s3_error (codes "PreconditionFailed")

abbrev pub minio : Minio
minio = record {
  Bucket = Dict Text Stat;
  bucket_exists = λ b. done true;
  make_bucket = λ b. done b;
  get_object = λ b key. stream_found (lookup key b);
  stat_object = λ b key. stat_found (lookup key b);
  copy_object = λ b from to etag. copy_found b to etag (lookup from b);
  remove_object = λ b key. done (remove key b);
  presigned_put_object = λ key expires. done key;
}

abbrev pub lower : Text → Text
lower t = t

abbrev pub user : Uuid → Text → User
user id name = record {
  id = id;
  username = name;
  email = name;
  password_hash = 0 ∷ codes "secret";
  created_at = 0;
  updated_at = 0;
  last_seen = none;
}

abbrev pub message : Uuid → Uuid → Time → Message
message id sender at_time = record {
  id = id;
  conversation_id = 50;
  sender_id = sender;
  content = codes "hi";
  created_at = at_time;
  edited_at = none;
  deleted_at = none;
}

abbrev member : Uuid → ConversationMember
member u = record { conversation_id = 50; user_id = u; joined_at = 1 }

abbrev receipt : Uuid → Uuid → MessageReceipt
receipt id m = record { id = id; message_id = m; user_id = 2; delivered_at = none; read_at = none }

-- an upload of user 1 in the conversation
abbrev pub upload : Uuid → Option Uuid → Option Time → Attachment
upload id message_id uploaded_at = record {
  id = id;
  conversation_id = 50;
  uploader_id = 1;
  message_id = message_id;
  filename = codes "a";
  mime_type = codes "image/png";
  file_size = 9;
  storage_key = id ∷ [];
  created_at = 5;
  uploaded_at = uploaded_at;
}

abbrev pub conversation : Conversation
conversation = record {
  id = 50;
  name = none;
  direct_key = some (codes "1:2");
  created_by = 1;
  created_at = 1;
  updated_at = 1;
}

-- Users 1 and 2 with a conversation of three messages of user 1, none of which user 2 has read, one
-- attachment that is bound, one that is uploaded and one that is pending; user 3 is nobody's peer.
abbrev pub db : Db
db = record {
  users = user 1 (codes "ann") ∷ user 2 (codes "bob") ∷ user 3 (codes "eve") ∷ [];
  refresh_tokens = [];
  conversations = conversation ∷ [];
  members = member 1 ∷ member 2 ∷ [];
  messages = message 101 1 10 ∷ message 102 1 20 ∷ message 103 1 30 ∷ [];
  receipts = receipt 201 101 ∷ receipt 202 102 ∷ receipt 203 103 ∷ [];
  attachments =
      upload 301 (some 101) (some 6) ∷ upload 302 none (some 6) ∷ upload 303 none none ∷ [];
}

abbrev pub settings : Settings
settings = record {
  presence_ttl_seconds = 60;
  presence_heartbeat_seconds = 20;
  typing_ttl = 5_000_000;
  realtime_sweep_interval = 1_000_000;
  realtime_rate_limit_window_seconds = 10;
  message_send_rate_limit = 30;
  typing_rate_limit = 60;
  receipt_rate_limit = 60;
  attachment_max_bytes = 1000;
  attachment_max_per_message = 10;
  attachment_upload_expire_minutes = 10;
  attachment_pending_ttl_hours = 24;
  attachment_cleanup_interval_seconds = 3600;
}
