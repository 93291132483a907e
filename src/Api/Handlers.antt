-- ===== src/Api/Handlers.antt =====
-- The functions of the routes, when they raise.
use chatterbox.Prelude.{ℕ, Bool, Option, ◌≡◌, refl, ap, ◌∙◌, inl, inr, arith}
use chatterbox.Config.{Settings}
use chatterbox.Errors.{Exception, raised, Result-cases}
use chatterbox.Models.{Uuid, Text, User, Db}
use chatterbox.Session.{Session, Stored, request_stored}
use chatterbox.Services.Presence
use chatterbox.Schemas.{MessageCreate, AttachmentReserveRequest}
use chatterbox.Storage.{Minio}
use chatterbox.Storage.Scanning.{Scanner}
use chatterbox.Tokens.{Jwt, Passwords}
use chatterbox.Services.Conversation as ConversationService
use chatterbox.Services.History
use chatterbox.Services.Attachment
use chatterbox.Services.Auth.{Lifetimes}
use chatterbox.Services.History.{CursorCodec}
use chatterbox.Services.Conversation.{get_authorized}
use chatterbox.Services.Message.{store_message}
use chatterbox.Api.{Route, Body, Draws, handler}
use chatterbox.Services.Attachment.Completion.{complete_raises}
use chatterbox.Services.Conversation.Direct.{find_or_create_direct_raises}

module _ (jwt : Jwt) (passwords : Passwords) (life : Lifetimes) (codec : CursorCodec)
    (settings : Settings) (minio : Minio) (scanner : Scanner) (lower quote : Text → Text)
    (email_str : Text → Option Text) (before : Text → Text → Bool) where
  open minio use {Bucket}

  abbrev pub handling : Draws Bucket → User → Route → Stored Bucket Body
  handling = handler jwt passwords life codec settings minio scanner lower quote email_str before

  -- the database and the bucket after a call are as they were
  abbrev pub Keeps : {A : Type 0} → Db → Bucket → A × Bucket × Db → Type 0
  Keeps db b (r, b', db') = (b' ≡ b) × (db' ≡ db)

  create_message-Keeps :
      (draws : Draws Bucket) (u : User) (c : Uuid) (m : MessageCreate) (b : Bucket) (db : Db)
      (e : Exception)
      → (request_stored (handling draws u (Route.create_message c m)) b db).0 ≡ raised e
      → Keeps db b (request_stored (handling draws u (Route.create_message c m)) b db)
  unfolding handler store_message get_authorized
  create_message-Keeps draws u c m b db e h = (refl, ground (arith, h))

  complete-Keeps :
      (draws : Draws Bucket) (u : User) (i : Uuid) (b : Bucket) (db : Db) (e : Exception)
      → draws.during ≡ (λ b. b)
      → draws.between ≡ (λ b. b)
      → (request_stored (handling draws u (Route.complete_attachment i)) b db).0 ≡ raised e
      → Keeps db b (request_stored (handling draws u (Route.complete_attachment i)) b db)
  unfolding handler
  complete-Keeps draws u i b db e calm quiet h =
      let begun : Session = record { committed = db; working = db } in
      let run =
        Attachment.complete minio lower scanner draws.during draws.between draws.now i u.id b
          begun in
      elim (Result-cases run.0) [
        | inl (answer, done) ↦ absurd (ground (arith, done, h))
        | inr (x, refusal) ↦
            (let (same, others) =
                complete_raises minio lower scanner draws.during draws.between draws.now i u.id b
                  run.1 db run.2.committed x (ap (λ r. (r, run.1, run.2.committed)) refusal) in
              let calmed : draws.during b ≡ b = ap (λ f. f b) calm in
              let kept : draws.between (draws.during b) ≡ b =
                ap draws.between calmed ∙ ap (λ f. f b) quiet in
              let bucket : run.1 ≡ b = elim others [
                | inl e ↦ e
                | inr (inl e) ↦ e ∙ calmed
                | inr (inr e) ↦ e ∙ kept
              ] in
              (ground (arith, refusal, bucket), ground (arith, refusal, same)))
      ]

  create_conversation-Keeps :
      (draws : Draws Bucket) (u : User) (i : Uuid) (b : Bucket) (db : Db) (e : Exception)
      → draws.others ≡ (λ d. d)
      → (request_stored (handling draws u (Route.create_conversation i)) b db).0 ≡ raised e
      → Keeps db b (request_stored (handling draws u (Route.create_conversation i)) b db)
  unfolding handler ConversationService.create_direct
  create_conversation-Keeps draws u i b db e alone h =
      let begun : Session = record { committed = db; working = db } in
      let run =
        ConversationService.find_or_create_direct draws.others draws.id draws.now u.id i begun in
      elim (Result-cases run.0) [
        | inl (answer, done) ↦ absurd (ground (arith, done, h))
        | inr (x, refusal) ↦ (
          refl,
          ground (
            arith,
            refusal,
            find_or_create_direct_raises draws.id draws.now u.id i db run.1.committed x,
            alone,
          ),
        )
      ]

  reads_only :
      (draws : Draws Bucket) (u : User) (b : Bucket) (db : Db)
      → Keeps db b (request_stored (handling draws u Route.me) b db)
  unfolding handler
  reads_only draws u b db = (refl, refl)

  lists_only :
      (draws : Draws Bucket) (u : User) (b : Bucket) (db : Db)
      → Keeps db b (request_stored (handling draws u Route.list_conversations) b db)
  unfolding handler
  lists_only draws u b db = (refl, refl)

  search_only :
      (draws : Draws Bucket) (u : User) (q : Text) (limit : ℕ) (b : Bucket) (db : Db)
      → Keeps db b (request_stored (handling draws u (Route.search_users q limit)) b db)
  unfolding handler
  search_only draws u q limit b db = (refl, refl)

  get_user-Keeps :
      (draws : Draws Bucket) (u : User) (i : Uuid) (b : Bucket) (db : Db) (e : Exception)
      → (request_stored (handling draws u (Route.get_user i)) b db).0 ≡ raised e
      → Keeps db b (request_stored (handling draws u (Route.get_user i)) b db)
  unfolding handler Presence.get_user
  get_user-Keeps draws u i b db e h = (refl, ground (arith, h))

  get_conversation-Keeps :
      (draws : Draws Bucket) (u : User) (c : Uuid) (b : Bucket) (db : Db) (e : Exception)
      → (request_stored (handling draws u (Route.get_conversation c)) b db).0 ≡ raised e
      → Keeps db b (request_stored (handling draws u (Route.get_conversation c)) b db)
  unfolding handler ConversationService.get get_authorized
  get_conversation-Keeps draws u c b db e h = (refl, ground (arith, h))

  list_messages-Keeps :
      (draws : Draws Bucket) (u : User) (c : Uuid) (limit : ℕ) (before' : Option Text)
      (after : Option Text) (b : Bucket) (db : Db) (e : Exception)
      → (request_stored (handling draws u (Route.list_messages c limit before' after)) b db).0
        ≡ raised e
      → Keeps db b
          (request_stored (handling draws u (Route.list_messages c limit before' after)) b db)
  unfolding handler History.list get_authorized
  list_messages-Keeps draws u c limit before' after b db e h = (refl, ground (arith, h))

  reserve-Keeps :
      (draws : Draws Bucket) (u : User) (c : Uuid) (r : AttachmentReserveRequest) (b : Bucket)
      (db : Db) (e : Exception)
      → (request_stored (handling draws u (Route.reserve_attachment c r)) b db).0 ≡ raised e
      → Keeps db b (request_stored (handling draws u (Route.reserve_attachment c r)) b db)
  unfolding handler Attachment.reserve get_authorized
  reserve-Keeps draws u c r b db e h = (refl, ground (arith, h))

  download-Keeps :
      (draws : Draws Bucket) (u : User) (i : Uuid) (b : Bucket) (db : Db) (e : Exception)
      → (request_stored (handling draws u (Route.download_attachment i)) b db).0 ≡ raised e
      → Keeps db b (request_stored (handling draws u (Route.download_attachment i)) b db)
  unfolding handler Attachment.authorize_download get_authorized
  download-Keeps draws u i b db e h = (refl, ground (arith, h))

  pub handler-Keeps :
      (draws : Draws Bucket) (u : User) (route : Route) (b : Bucket) (db : Db) (e : Exception)
      → draws.others ≡ (λ d. d)
      → draws.during ≡ (λ b. b)
      → draws.between ≡ (λ b. b)
      → (request_stored (handling draws u route) b db).0 ≡ raised e
      → Keeps db b (request_stored (handling draws u route) b db)
  handler-Keeps draws u Route.me b db e alone calm quiet h = reads_only draws u b db
  handler-Keeps draws u Route.list_conversations b db e alone calm quiet h = lists_only draws u b db
  handler-Keeps draws u (Route.search_users q limit) b db e alone calm quiet h =
      search_only draws u q limit b db
  handler-Keeps draws u (Route.get_user i) b db e alone calm quiet h =
      get_user-Keeps draws u i b db e h
  handler-Keeps draws u (Route.create_conversation i) b db e alone calm quiet h =
      create_conversation-Keeps draws u i b db e alone h
  handler-Keeps draws u (Route.get_conversation c) b db e alone calm quiet h =
      get_conversation-Keeps draws u c b db e h
  handler-Keeps draws u (Route.list_messages c limit before' after) b db e alone calm quiet h =
      list_messages-Keeps draws u c limit before' after b db e h
  handler-Keeps draws u (Route.create_message c m) b db e alone calm quiet h =
      create_message-Keeps draws u c m b db e h
  handler-Keeps draws u (Route.reserve_attachment c r) b db e alone calm quiet h =
      reserve-Keeps draws u c r b db e h
  handler-Keeps draws u (Route.complete_attachment i) b db e alone calm quiet h =
      complete-Keeps draws u i b db e calm quiet h
  handler-Keeps draws u (Route.download_attachment i) b db e alone calm quiet h =
      download-Keeps draws u i b db e h
