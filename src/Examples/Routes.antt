-- ===== src/Examples/Routes.antt =====
-- Calls of the HTTP routes.
use chatterbox.Prelude.{
  true, some, Option, [], ◌∷◌, ◌≡◌, ◌≢◌, refl, codes, All, text_lt, strip, split_on,
}
use chatterbox.Errors.{ok}
use chatterbox.Models.{Text, User}
use chatterbox.Session.{request}
use chatterbox.Repositories.Conversations
use chatterbox.Storage.Scanning.{disabled}
use chatterbox.Tokens.{create_token, decode_token}
use chatterbox.Schemas.{normalize_filename}
use chatterbox.Schemas.Filenames.{is_plain, normalize_filename_lem}
use chatterbox.Services.Auth.{get_current_user}
use chatterbox.Services.Conversation
use chatterbox.Services.Conversation.{get_authorized}
use chatterbox.Api.{Route, Body, Draws, success, status, handler, validated}
use chatterbox.Api.Serving.{call, serve}
use chatterbox.Api.Access.{unauthenticated_is_refused, only_members_succeed}
use chatterbox.Examples.World.{
  jwt, passwords, life, codec, settings, minio, lower, conversation, db,
}
use chatterbox.Examples.Accounts.{ann, pair}
use chatterbox.Examples.Accounts
use chatterbox.Examples.Uploads.{bucket}

accepted : normalize_filename (codes "C:\\tmp\\a.png ") ≡ some (codes "a.png")
unfolding normalize_filename strip split_on
accepted = refl

normalize_filename_lem_example :
    All (λ c. is_plain c ≡ true) (codes "a.png")
    × (codes "a.png" ≢ [])
    × (codes "a.png" ≢ codes ".")
    × (codes "a.png" ≢ codes "..")
normalize_filename_lem_example =
    normalize_filename_lem (codes "C:\\tmp\\a.png ") (codes "a.png") accepted

abbrev email_str : Text → Option Text
email_str t = some t

abbrev draws : Draws minio.Bucket
draws = record {
  now = 200;
  id = 900;
  receipt_id = λ u. u;
  tokens = Accounts.draws 7000;
  others = λ d. d;
  during = λ b. b;
  between = λ b. b;
}

abbrev bearer : Option Text
bearer = some (pair 1000 100).access_token

nobody : (u : User) → (request (get_current_user jwt passwords life 200 (some [])) db).0 ≢ ok u
unfolding get_current_user decode_token
nobody u h = cc

unauthenticated_is_refused_example :
    (status
        (serve jwt passwords life codec settings minio disabled lower lower email_str text_lt draws
          (some [])
          Route.me
          (db, bucket)).0
      ≡ 401)
    × ((serve jwt passwords life codec settings minio disabled lower lower email_str text_lt draws
          (some [])
          Route.me
          (db, bucket)).1
        ≡ db)
    × ((serve jwt passwords life codec settings minio disabled lower lower email_str text_lt draws
          (some [])
          Route.me
          (db, bucket)).2
        ≡ bucket)
unauthenticated_is_refused_example =
    unauthenticated_is_refused jwt passwords life codec settings minio disabled lower lower
      email_str text_lt draws (some []) Route.me db bucket nobody

succeeds :
    (serve jwt passwords life codec settings minio disabled lower lower email_str text_lt draws
      bearer
      (Route.get_conversation 50)
      (db, bucket)).0
    ≡ success 200 (Body.conversation (Conversation.to_response conversation 1 db))
unfolding serve call validated handler get_current_user create_token decode_token Conversation.get
    get_authorized
succeeds = refl

only_members_succeed_example :
    (u : User) × ((request (get_current_user jwt passwords life 200 bearer) db).0 ≡ ok u)
    × (Conversations.is_member 50 u.id db ≡ true)
only_members_succeed_example =
    only_members_succeed jwt passwords life codec settings minio disabled lower lower email_str
      text_lt draws bearer (Route.get_conversation 50) db bucket 50 200
      (Body.conversation (Conversation.to_response conversation 1 db)) refl succeeds

-- a message with an attachment that is bound already
abbrev greedy : Route
greedy = Route.create_message 50 (record { content = codes "hi"; attachment_ids = 301 ∷ [] })
