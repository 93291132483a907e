-- ===== src/Api/Atomic.antt =====
-- A call that is answered with an error leaves no trace.
use chatterbox.Prelude.{Bool, Option, ◌≤◌, ◌≡◌}
use chatterbox.Config.{Settings}
use chatterbox.Errors.{Result}
use chatterbox.Models.{Text, Db}
use chatterbox.Session.{Session, Stored}
use chatterbox.Storage.{Minio}
use chatterbox.Storage.Scanning.{Scanner}
use chatterbox.Tokens.{Jwt, Passwords}
use chatterbox.Services.Auth.{Lifetimes}
use chatterbox.Services.History.{CursorCodec}
use chatterbox.Api.{Route, Body, Response, status, Draws}
use chatterbox.Api.Serving.{serve}
use chatterbox.Api.Access.{calls, answer}

module _ (jwt : Jwt) (passwords : Passwords) (life : Lifetimes) (codec : CursorCodec)
    (settings : Settings) (minio : Minio) (scanner : Scanner) (lower quote : Text → Text)
    (email_str : Text → Option Text) (before : Text → Text → Bool) where
  open minio use {Bucket}

  abbrev Answer : Type 0
  Answer = Response × Db × Bucket

  abbrev serving : Draws Bucket → Option Text → Route → Db × Bucket → Answer
  serving = serve jwt passwords life codec settings minio scanner lower quote email_str before

  -- an error leaves the state
  abbrev KeepsOnError : Db × Bucket → Answer → Type 0
  KeepsOnError (db, b) t = 400 ≤ status t.0 → (t.1 ≡ db) × (t.2 ≡ b)

  abbrev begun : Db → Session
  begun db = record { committed = db; working = db }

  abbrev calling : Draws Bucket → Option Text → Route → Stored Bucket (Option Body)
  calling = calls jwt passwords life codec settings minio scanner lower quote email_str before

  abbrev answers : Route → Result (Option Body) × Bucket × Session → Answer
  answers = answer jwt passwords life codec settings minio scanner lower quote email_str before
