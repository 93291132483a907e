-- ===== src/Api/Access.antt =====
-- Who gets an answer: the bearer check in front of the routes, and membership behind it.
use chatterbox.Prelude.{
  ℕ, Bool, true, false, Option, none, some, ◌≡◌, ◌≢◌, refl, ◌⊎◌, inl, inr, arith, ◌∙◌, ap,
  Bool-cases, Option-cases,
}
use chatterbox.Config.{Settings}
use chatterbox.Errors.{AppError, Exception, app_error, status_code, Result, ok, raised}
use chatterbox.Models.{Uuid, Time, Text, User, Conversation, Db}
use chatterbox.Session.{Session, Stored, request}
use chatterbox.Repositories.Users
use chatterbox.Repositories.Conversations
use chatterbox.Storage.{Minio}
use chatterbox.Storage.Scanning.{Scanner}
use chatterbox.Tokens.{Jwt, Passwords, TokenType, decode_token}
use chatterbox.Services.Conversation as ConversationService
use chatterbox.Services.History
use chatterbox.Services.Attachment
use chatterbox.Services.Auth.{Lifetimes, get_current_user}
use chatterbox.Services.History.{CursorCodec}
use chatterbox.Services.Conversation.{get_authorized}
use chatterbox.Services.Message.{store_message}
use chatterbox.Api.{Route, Body, Response, success, status, Draws, validated, handler}
use chatterbox.Api.Serving.{respond, call, serve}

module _ (jwt : Jwt) (passwords : Passwords) (life : Lifetimes) where
  -- The bearer check finds a user or raises an error of status 401, and writes nothing.
  pub user_or_401 :
      (now : Time) (bearer : Option Text) (s : Session)
      → ((u : User) × (get_current_user jwt passwords life now bearer s ≡ (ok u, s)))
        ⊎ ((e : AppError) × (get_current_user jwt passwords life now bearer s
              ≡ (raised (app_error e), s))
            × (status_code e ≡ 401))
  unfolding get_current_user
  user_or_401 now none s = inr (AppError.authentication_required, refl, refl)
  user_or_401 now (some token) s =
      elim (Option-cases (decode_token jwt now token TokenType.access)) [
        | inl nothing ↦ inr (AppError.invalid_access_token, rw nothing refl, refl)
        | inr (p, read) ↦ elim (Option-cases (Users.get_by_id p.subject s.working)) [
          | inl nobody ↦ inr (AppError.invalid_access_token, rw (read, nobody) refl, refl)
          | inr (u, found) ↦ inl (u, rw (read, found) refl)
        ]
      ]

-- `get_authorized` finds the conversation of a member or raises, and writes nothing
pub member_or_raise :
    (c u : Uuid) (s : Session)
    → ((Conversations.is_member c u s.working ≡ true)
        × ((x : Conversation) × (get_authorized c u s ≡ (ok x, s))))
      ⊎ ((e : Exception) × (get_authorized c u s ≡ (raised e, s)))
unfolding get_authorized
member_or_raise c u s = elim (Option-cases (Conversations.get_by_id c s.working)) [
  | inl nothing ↦ inr (app_error AppError.conversation_not_found, rw nothing refl)
  | inr (x, found) ↦ elim (Bool-cases (Conversations.is_member c u s.working)) [
    | inl e ↦ inl (e, (x, rw (found, e) refl))
    | inr e ↦ inr (app_error AppError.conversation_access_denied, rw (found, e) refl)
  ]
]

module _ (jwt : Jwt) (passwords : Passwords) (life : Lifetimes) (codec : CursorCodec)
    (settings : Settings) (minio : Minio) (scanner : Scanner) (lower quote : Text → Text)
    (email_str : Text → Option Text) (before : Text → Text → Bool) where
  open minio use {Bucket}

  abbrev pub calls : Draws Bucket → Option Text → Route → Stored Bucket (Option Body)
  calls = call jwt passwords life codec settings minio scanner lower quote email_str before

  abbrev pub answer : Route → Result (Option Body) × Bucket × Session → Response × Db × Bucket
  answer route (r, b, s) = (
    respond jwt passwords life codec settings minio scanner lower quote email_str before route r,
    s.committed,
    b,
  )

  pub refused_call :
      (draws : Draws Bucket) (bearer : Option Text) (route : Route) (b : Bucket) (s : Session)
      (e : Exception)
      → get_current_user jwt passwords life draws.now bearer s ≡ (raised e, s)
      → calls draws bearer route b s ≡ (raised e, b, s)
  unfolding call
  refused_call draws bearer route b s e h = rw h refl

  -- Whatever the route and its arguments, valid or not: a call whose bearer check does not find a
  -- user is answered with 401, and leaves the database and the bucket as they are.
  pub unauthenticated_is_refused :
      (draws : Draws Bucket) (bearer : Option Text) (route : Route) (db : Db) (b : Bucket)
      → ((u : User) → (request (get_current_user jwt passwords life draws.now bearer) db).0 ≢ ok u)
      → let answer =
          serve jwt passwords life codec settings minio scanner lower quote email_str before draws
            bearer route
            (db, b) in
        (status answer.0 ≡ 401) × (answer.1 ≡ db) × (answer.2 ≡ b)
  unfolding serve
  unauthenticated_is_refused draws bearer route db b nobody =
      let begun : Session = record { committed = db; working = db } in
      elim (user_or_401 jwt passwords life draws.now bearer begun) [
        | inl (u, found) ↦ absurd (nobody u (ap (λ r. r.0) found))
        | inr (e, raises, code) ↦
            (let same = refused_call draws bearer route b begun (app_error e) raises in
              let after = ap (answer route) same in
              (ap (λ x. status x.0) after ∙ code, ap (λ x. x.1) after, ap (λ x. x.2) after))
      ]

  -- the conversation that a call is about, as far as it is in its path
  abbrev pub conversation_of : Route → Option Uuid
  conversation_of (Route.get_conversation c) = some c
  conversation_of (Route.list_messages c limit before' after) = some c
  conversation_of (Route.create_message c m) = some c
  conversation_of (Route.reserve_attachment c r) = some c
  conversation_of _ = none

  -- a handler of such a route, for a user who is not a member, raises
  outsider_raises :
      (draws : Draws Bucket) (u : User) (route : Route) (b : Bucket) (c : Uuid) (s : Session)
      → conversation_of route ≡ some c
      → Conversations.is_member c u.id s.working ≡ false
      → (e : Exception) × ((handler jwt passwords life codec settings minio scanner lower quote
            email_str before draws u route b s).0
          ≡ raised e)
  unfolding handler ConversationService.get History.list store_message Attachment.reserve
  outsider_raises draws u route b c s about outside = elim (member_or_raise c u.id s) [
    | inl (member, found) ↦ absurd (ground (arith, member, outside))
    | inr (e, raises) ↦ (e, ground (arith, raises, about))
  ]

  conversation_of-validated :
      (route r : Route)
      → validated jwt passwords life codec settings minio scanner lower quote email_str before route
        ≡ some r
      → conversation_of r ≡ conversation_of route
  unfolding validated
  conversation_of-validated route r h = ground (arith, h)

  outsider_call :
      (draws : Draws Bucket) (bearer : Option Text) (u : User) (route : Route) (b : Bucket)
      (c : Uuid) (s : Session)
      → get_current_user jwt passwords life draws.now bearer s ≡ (ok u, s)
      → conversation_of route ≡ some c
      → Conversations.is_member c u.id s.working ≡ false
      → ((calls draws bearer route b s).0 ≡ ok none)
        ⊎ ((e : Exception) × ((calls draws bearer route b s).0 ≡ raised e))
  unfolding call
  outsider_call draws bearer u route b c s found about outside =
      elim (Option-cases (
        validated jwt passwords life codec settings minio scanner lower quote email_str before
          route)) [
            | inl invalid ↦ inl (rw (found, invalid) refl)
            | inr (r, valid) ↦
                (let (e, raises) =
                    outsider_raises draws u r b c s
                      (conversation_of-validated route r valid ∙ about) outside in
                  inr (e, rw (found, valid) (ground (arith, raises))))
          ]

  -- A call on a conversation that succeeds was made by one of its members: the conversation itself,
  -- its messages, a new message and a new attachment.
  pub only_members_succeed :
      (draws : Draws Bucket) (bearer : Option Text) (route : Route) (db : Db) (b : Bucket)
      (c : Uuid) (n : ℕ) (body : Body)
      → conversation_of route ≡ some c
      → (serve jwt passwords life codec settings minio scanner lower quote email_str before draws
          bearer route
          (db, b)).0
        ≡ success n body
      → (u : User) × ((request (get_current_user jwt passwords life draws.now bearer) db).0 ≡ ok u)
        × (Conversations.is_member c u.id db ≡ true)
  unfolding serve
  only_members_succeed draws bearer route db b c n body about succeeds =
      let begun : Session = record { committed = db; working = db } in
      elim (user_or_401 jwt passwords life draws.now bearer begun) [
        | inr (e, raises, code) ↦
            (let same = refused_call draws bearer route b begun (app_error e) raises in
              absurd (ground (arith, same, succeeds)))
        | inl (u, found) ↦ elim (Bool-cases (Conversations.is_member c u.id db)) [
          | inl member ↦ (u, ap (λ r. r.0) found, member)
          | inr outside ↦ elim (outsider_call draws bearer u route b c begun found about outside) [
            | inl invalid ↦ absurd (ground (arith, invalid, succeeds))
            | inr (e, raises) ↦ absurd (ground (arith, raises, succeeds))
          ]
        ]
      ]
