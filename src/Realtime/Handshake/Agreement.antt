-- ===== src/Realtime/Handshake/Agreement.antt =====
-- The handshake against the bearer check of backend/app/api/dependencies.py.
use chatterbox.Prelude.{none, some, ◌≡◌, ◌≢◌, ◌↔◌, arith, Option-cases, inl, inr}
use chatterbox.Errors.{ok}
use chatterbox.Models.{Time, Text, User, Db}
use chatterbox.Session.{request}
use chatterbox.Repositories.Users
use chatterbox.Tokens.{Jwt, Passwords, TokenType, decode_token}
use chatterbox.Services.Auth.{Lifetimes, get_current_user}
use chatterbox.Realtime.Handshake.{extract_access_token, get_websocket_user}

module _ (jwt : Jwt) (passwords : Passwords) (life : Lifetimes) where
  accepted :
      (now : Time) (raw token : Text) (db : Db) (u : User)
      → extract_access_token raw ≡ some token
      → (get_websocket_user jwt now raw db ≡ some u)
        ↔ (request (get_current_user jwt passwords life now (some token)) db ≡ (ok u, db))
  unfolding get_websocket_user get_current_user
  accepted now raw token db u given =
      elim (Option-cases (decode_token jwt now token TokenType.access)) [
        | inl nothing ↦
            (λ h. ground (arith, given, nothing, h), λ h. ground (arith, given, nothing, h))
        | inr (p, read) ↦ elim (Option-cases (Users.get_by_id p.subject db)) [
          | inl nobody ↦ (
            λ h. ground (arith, given, read, nobody, h),
            λ h. ground (arith, given, read, nobody, h),
          )
          | inr (v, found) ↦ (
            λ h. ground (arith, given, read, found, h),
            λ h. ground (arith, given, read, found, h),
          )
        ]
      ]

  refused :
      (now : Time) (raw : Text) (db : Db) (u : User)
      → extract_access_token raw ≡ none
      → get_websocket_user jwt now raw db ≢ some u
  unfolding get_websocket_user
  refused now raw db u missing h = ground (arith, missing, h)

  -- A WebSocket handshake is accepted for a user exactly when its protocols carry a token with which
  -- the bearer check of the HTTP routes lets that user in, at the same time and database.
  pub handshake_iff_bearer :
      (now : Time) (raw : Text) (db : Db) (u : User)
      → (get_websocket_user jwt now raw db ≡ some u) ↔ (
          (token : Text) × (extract_access_token raw ≡ some token)
          × (request (get_current_user jwt passwords life now (some token)) db ≡ (ok u, db)))
  handshake_iff_bearer now raw db u = (
    λ h. elim (Option-cases (extract_access_token raw)) [
      | inl nothing ↦ absurd (refused now raw db u nothing h)
      | inr (token, given) ↦ (token, given, (accepted now raw token db u given).0 h)
    ],
    λ (token, given, h). (accepted now raw token db u given).1 h,
  )
