-- ===== src/Api/Serving.antt =====
-- A call of a route, from the request to the response.
use chatterbox.Prelude.{ℕ, Bool, Option, none, some}
use chatterbox.Config.{Settings}
use chatterbox.Errors.{Result, ok, raised}
use chatterbox.Models.{Text, User, Db}
use chatterbox.Session.{Exec, pure, request, ◌>>=◌, Stored, keeping, request_stored, ◌>>-◌}
use chatterbox.Storage.{Minio}
use chatterbox.Storage.Scanning.{Scanner}
use chatterbox.Tokens.{Jwt, Passwords}
use chatterbox.Schemas.{validate_register, validate_login}
use chatterbox.Services.Auth
use chatterbox.Services.Auth.{Lifetimes, RegisterRequest, TokenResponse, get_current_user}
use chatterbox.Services.History.{CursorCodec}
use chatterbox.Api.{
  Route, PublicRoute, Body, Response, success, unprocessable, tokens, no_content, register, login,
  refresh, logout, handled, created_or_ok, Draws, validated, handler,
}

module _ (jwt : Jwt) (passwords : Passwords) (life : Lifetimes) (codec : CursorCodec)
    (settings : Settings) (minio : Minio) (scanner : Scanner) (lower quote : Text → Text)
    (email_str : Text → Option Text) (before : Text → Text → Bool) where
  open minio use {Bucket}

  -- The function of a route, if its arguments are valid.
  abbrev pub called : Draws Bucket → User → Option Route → Stored Bucket (Option Body)
  called draws u none = keeping (pure none)
  called draws u (some r) =
      handler jwt passwords life codec settings minio scanner lower quote email_str before draws u r
      >>- λ body. keeping (pure (some body))

  -- A call's dependencies come first, then the validation, then the function.
  unfoldable pub call : Draws Bucket → Option Text → Route → Stored Bucket (Option Body)
  unfolding handler validated
  call draws bearer route = keeping (get_current_user jwt passwords life draws.now bearer) >>- λ u.
      called draws u (
        validated jwt passwords life codec settings minio scanner lower quote email_str before
          route)

  -- the response to what a call returned or raised
  abbrev pub respond : Route → Result (Option Body) → Response
  respond route (raised e) = handled e
  respond route (ok none) = unprocessable
  respond route (ok (some body)) = success (created_or_ok route) body

  -- a call, from the state of the database and the bucket to the next
  unfoldable pub serve : Draws Bucket → Option Text → Route → Db × Bucket → Response × Db × Bucket
  unfolding call
  serve draws bearer route (db, b) =
      let (r, b', db') = request_stored (call draws bearer route) b db in (respond route r, db', b')

  -- the functions of the public routes, with the status of their success
  unfoldable pub public_handler : Draws Bucket → PublicRoute → Exec (Option (ℕ × Body))
  public_handler draws (register r) = elim (validate_register email_str lower r) [
    | none ↦ pure none
    | some r' ↦ (do
      pair ← Auth.register jwt passwords life draws.others draws.tokens draws.now r'
      pure (some (201, tokens pair)))
  ]
  public_handler draws (login r) = elim (validate_login r) [
    | none ↦ pure none
    | some r' ↦ (do
      pair ← Auth.log_in jwt passwords life lower draws.tokens draws.now r'.login r'.password
      pure (some (200, tokens pair)))
  ]
  public_handler draws (refresh token) = do
    pair ← Auth.refresh jwt passwords life draws.tokens draws.now token
    pure (some (200, tokens pair))
  public_handler draws (logout token) = do
    _ ← Auth.logout jwt passwords life draws.now token
    pure (some (204, no_content))

  unfoldable pub serve_public : Draws Bucket → PublicRoute → Db → Response × Db
  unfolding public_handler
  serve_public draws route db =
      let (r, db') = request (public_handler draws route) db in
      elim r [
        | raised e ↦ (handled e, db')
        | ok none ↦ (unprocessable, db')
        | ok (some (n, body)) ↦ (success n body, db')
      ]
