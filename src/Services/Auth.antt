-- ===== src/Services/Auth.antt =====
-- backend/app/services/auth_service.py, and the bearer check of backend/app/api/dependencies.py.
pub mod Stored
pub mod Rotation
pub mod Renewal
pub mod Registration
use chatterbox.Prelude.{
  ℕ, ◌+◌, Bool, true, false, ◌&&◌, not, Option, none, some, ◌==◌, is_none, if◌then◌else◌,
}
use chatterbox.Errors.{
  AppError, Exception, app_error, integrity_error, Result, ok, raised, user_already_exists,
  invalid_credentials, invalid_refresh_token, invalid_access_token, authentication_required,
}
use chatterbox.Models.{Uuid, Time, Text, User, RefreshToken, Db}
use chatterbox.Session.{
  Session, Exec, pure, raise, lift, gets, or_raise, raise_if, modify, commit, rollback, ◌>>=◌, ◌>>◌,
}
use chatterbox.Repositories.Users
use chatterbox.Repositories.Tokens as TokenRows
use chatterbox.Tokens.{Jwt, Passwords, TokenType, TokenPayload, create_token, decode_token}

-- schemas/auth.py, after the validators
pub record RegisterRequest : Type 0 where
  pub username : Text
  pub email : Text
  pub password : Text

pub record TokenResponse : Type 0 where
  pub access_token : Text
  pub refresh_token : Text
  pub user : User

-- What a call draws at random: the `uuid4()` of a new user, of the two tokens and of the stored
-- row, and a password salt.
pub record Draws : Type 0 where
  pub user_id : Uuid
  pub access_jti : Uuid
  pub refresh_jti : Uuid
  pub row_id : Uuid
  pub salt : ℕ

-- `access_token_expire_minutes` and `refresh_token_expire_days`, as lifetimes
pub record Lifetimes : Type 0 where
  pub access : Time
  pub refresh : Time

-- The INSERT at `session.flush()`, under the unique constraints on username and email. `others`
-- is what other requests have committed since this one read.
insert_user : (Db → Db) → User → Exec (Unit {0})
insert_user others user s =
    let db = others s.committed in
    if Users.email_or_username_exists user.email user.username db
    then (raised integrity_error, record { committed = db; working = db })
    else (ok tt, record { committed = db; working = Users.add user db })

-- `except IntegrityError`: a rollback, and the error of a name that is taken
abbrev pub or_taken : Exec (Unit {0}) → Exec (Unit {0})
or_taken m s =
    let (r, s') = m s in
    elim r [
      | ok u ↦ (ok u, s')
      | raised integrity_error ↦ (rollback >> raise user_already_exists) s'
      | raised e ↦ (raised e, s')
    ]

module _ (jwt : Jwt) (passwords : Passwords) (life : Lifetimes) where
  abbrev pub new_user : Draws → Time → RegisterRequest → User
  new_user draws now d = record {
    id = draws.user_id;
    username = d.username;
    email = d.email;
    password_hash = passwords.hash draws.salt d.password;
    created_at = now;
    updated_at = now;
    last_seen = none;
  }

  abbrev pub new_row : Draws → Time → Uuid → RefreshToken
  new_row draws now user_id = record {
    id = draws.row_id;
    jti = draws.refresh_jti;
    user_id = user_id;
    expires_at = now + life.refresh;
    revoked_at = none;
    created_at = now;
  }

  abbrev pub token_pair : Draws → Time → User → TokenResponse
  token_pair draws now user = record {
    access_token = (create_token jwt now draws.access_jti user.id TokenType.access life.access).0;
    refresh_token =
        (create_token jwt now draws.refresh_jti user.id TokenType.refresh life.refresh).0;
    user = user;
  }

  -- `_issue_token_pair`
  issue_token_pair : Draws → Time → User → Exec TokenResponse
  issue_token_pair draws now user = do
    modify (TokenRows.add (new_row draws now user.id))
    pure (token_pair draws now user)

  unfoldable pub register : (Db → Db) → Draws → Time → RegisterRequest → Exec TokenResponse
  unfolding insert_user issue_token_pair
  register others draws now d = do
    taken ← gets (Users.email_or_username_exists d.email d.username)
    raise_if taken user_already_exists
    let user = new_user draws now d
    or_taken (insert_user others user)
    response ← issue_token_pair draws now user
    commit
    pure response

  abbrev wrong_password : Text → User → Bool
  wrong_password password user = not (passwords.verify password user.password_hash)

  -- `lower` is Python's `str.lower`
  unfoldable pub log_in : (Text → Text) → Draws → Time → Text → Text → Exec TokenResponse
  unfolding issue_token_pair
  log_in lower draws now login password = do
    found ← gets (Users.get_by_email_or_username lower login)
    user ← or_raise found invalid_credentials
    raise_if (wrong_password password user) invalid_credentials
    response ← issue_token_pair draws now user
    commit
    pure response

  -- `_decode_refresh`
  abbrev decode_refresh : Time → Text → Exec TokenPayload
  decode_refresh now raw_token =
      or_raise (decode_token jwt now raw_token TokenType.refresh) invalid_refresh_token

  unfoldable pub refresh : Draws → Time → Text → Exec TokenResponse
  unfolding issue_token_pair
  refresh draws now raw_token = do
    payload ← decode_refresh now raw_token
    active ← gets (TokenRows.get_active now payload.jti)
    stored ← or_raise active invalid_refresh_token
    raise_if (not (stored.user_id == payload.subject)) invalid_refresh_token
    found ← gets (Users.get_by_id payload.subject)
    user ← or_raise found invalid_refresh_token
    modify (TokenRows.revoke now stored)
    response ← issue_token_pair draws now user
    commit
    pure response

  revoke_if_owned : Time → TokenPayload → Option RefreshToken → Exec (Unit {0})
  revoke_if_owned now payload none = pure tt
  revoke_if_owned now payload (some stored) =
      if stored.user_id == payload.subject
      then (do modify (TokenRows.revoke now stored); commit)
      else pure tt

  unfoldable pub logout : Time → Text → Exec (Unit {0})
  unfolding revoke_if_owned
  logout now raw_token = do
    payload ← decode_refresh now raw_token
    active ← gets (TokenRows.get_active now payload.jti)
    revoke_if_owned now payload active

  -- `get_current_user`: the bearer token of a request, if it has one
  unfoldable pub get_current_user : Time → Option Text → Exec User
  get_current_user now none = raise authentication_required
  get_current_user now (some token) = do
    payload ← or_raise (decode_token jwt now token TokenType.access) invalid_access_token
    found ← gets (Users.get_by_id payload.subject)
    or_raise found invalid_access_token
