-- ===== src/Services/Auth/Rotation.antt =====
-- Refreshing with a token again, and after a logout (backend/app/services/auth_service.py).
use chatterbox.Prelude.{
  ◌≤◌, true, none, some, List, [], ◌∷◌, ◌++◌, ◌≡◌, ◌≢◌, inl, inr, arith, update_where, Option-cases,
  ◌==◌, All,
}
use chatterbox.Prelude.Rows.{find?-append_none, find?-All, find?_holds}
use chatterbox.Errors.{app_error, ok, raised, invalid_refresh_token}
use chatterbox.Models.{Time, Text, RefreshToken, Db}
use chatterbox.Session.{request}
use chatterbox.Repositories.Users
use chatterbox.Repositories.Tokens.{is_active, get_active}
use chatterbox.Tokens.{Jwt, Passwords, TokenType, TokenPayload, decode_token}
use chatterbox.Services.Auth.{
  Draws, Lifetimes, TokenResponse, new_row, refresh, logout, issue_token_pair,
}
use chatterbox.Services.Auth.Stored.{
  HasUniqueJtis, IsFresh, revoke_row, same_row, revoked_inactive, inactive_later,
}

module _ (jwt : Jwt) (passwords : Passwords) (life : Lifetimes) where
  -- two readings of one refresh token agree
  decode_again :
      (now now' : Time) (token : Text) (p q : TokenPayload)
      → decode_token jwt now token TokenType.refresh ≡ some p
      → decode_token jwt now' token TokenType.refresh ≡ some q
      → (p.jti ≡ q.jti) × (p.subject ≡ q.subject)
  unfolding decode_token
  decode_again now now' token p q hp hq = elim (Option-cases (jwt.decode now token)) [
    | inl nothing ↦ ground (arith, nothing)
    | inr (c, ec) ↦ elim (Option-cases (jwt.decode now' token)) [
      | inl nothing ↦ ground (arith, nothing)
      | inr (d, ed) ↦ ground (arith, jwt.decode_stable now now' token c d ec ed)
    ]
  ]

  -- A request with a token of which no row is active is refused, and changes nothing.
  inactive_refused :
      (draws : Draws) (now : Time) (token : Text) (db : Db)
      → ((p : TokenPayload)
          → decode_token jwt now token TokenType.refresh ≡ some p
          → get_active now p.jti db ≡ none)
      → request (refresh jwt passwords life draws now token) db
        ≡ (raised (app_error invalid_refresh_token), db)
  unfolding refresh
  inactive_refused draws now token db none_active =
      elim (Option-cases (decode_token jwt now token TokenType.refresh)) [
        | inl nothing ↦ ground (arith, nothing)
        | inr (p, e) ↦ ground (arith, e, none_active p e)
      ]

  -- the stored tokens after a refresh
  refresh_rows :
      (draws : Draws) (now : Time) (token : Text) (db db' : Db) (r : TokenResponse)
      (p : TokenPayload) (s : RefreshToken)
      → request (refresh jwt passwords life draws now token) db ≡ (ok r, db')
      → decode_token jwt now token TokenType.refresh ≡ some p
      → get_active now p.jti db ≡ some s
      → db'.refresh_tokens
        ≡ update_where (λ t. t.id == s.id) (revoke_row now) db.refresh_tokens
          ++ new_row jwt passwords life draws now p.subject ∷ []
  unfolding refresh issue_token_pair
  refresh_rows draws now token db db' r p s h e active =
      elim (Option-cases (Users.get_by_id p.subject db)) [
        | inl nothing ↦ ground (arith, nothing)
        | inr (u, found) ↦
            ground (arith, found, find?_holds (λ x. x.id == p.subject) db.users u found)
      ]

  -- after a refresh its `jti` is active no more
  spent :
      (draws : Draws) (now now' : Time) (token : Text) (db db' : Db) (r : TokenResponse)
      (p : TokenPayload)
      → HasUniqueJtis db.refresh_tokens
      → IsFresh draws.refresh_jti db.refresh_tokens
      → request (refresh jwt passwords life draws now token) db ≡ (ok r, db')
      → decode_token jwt now token TokenType.refresh ≡ some p
      → get_active now' p.jti db' ≡ none
  spent draws now now' token db db' r p u fresh h e =
      elim (Option-cases (get_active now p.jti db)) [
        | inl nothing ↦ cc (
            inactive_refused draws now token db
              (λ q eq. rw (← (decode_again now now token p q e eq).0) nothing))
        | inr (s, active) ↦
            (let ne : s.jti ≢ draws.refresh_jti =
                find?-All (λ t. t.jti ≢ draws.refresh_jti) (is_active now p.jti) db.refresh_tokens s
                  fresh active in
              let same : is_active now p.jti s ≡ true =
                find?_holds (is_active now p.jti) db.refresh_tokens s active in
              let new : List RefreshToken = new_row jwt passwords life draws now p.subject ∷ [] in
              rw (refresh_rows draws now token db db' r p s h e active) (
                ground (
                  arith,
                  ne,
                  same,
                  find?-append_none (is_active now' p.jti)
                      (update_where (λ t. t.id == s.id) (revoke_row now) db.refresh_tokens) new
                      (revoked_inactive now now' p.jti s.id db.refresh_tokens
                        (same_row now p.jti db.refresh_tokens s u active)),
                )))
      ]

  -- A refresh token serves once: after a refresh that was answered, the same token is refused at
  -- any time, and the refusal changes nothing. The stored `jti`s are unique and the one drawn is
  -- new among them.
  pub refresh_once :
      (draws draws' : Draws) (now now' : Time) (token : Text) (db db' : Db) (r : TokenResponse)
      → HasUniqueJtis db.refresh_tokens
      → IsFresh draws.refresh_jti db.refresh_tokens
      → request (refresh jwt passwords life draws now token) db ≡ (ok r, db')
      → request (refresh jwt passwords life draws' now' token) db'
        ≡ (raised (app_error invalid_refresh_token), db')
  refresh_once draws draws' now now' token db db' r u fresh h =
      elim (Option-cases (decode_token jwt now token TokenType.refresh)) [
        | inl nothing ↦ cc (inactive_refused draws now token db (λ q eq. cc))
        | inr (p, e) ↦ inactive_refused draws' now' token db' (λ q eq.
            rw (← (decode_again now now' token p q e eq).0)
              (spent draws now now' token db db' r p u fresh h e))
      ]

  logout_rows :
      (now : Time) (token : Text) (db db' : Db) (p : TokenPayload) (s : RefreshToken)
      → request (logout jwt passwords life now token) db ≡ (ok tt, db')
      → decode_token jwt now token TokenType.refresh ≡ some p
      → get_active now p.jti db ≡ some s
      → s.user_id ≡ p.subject
      → db'.refresh_tokens ≡ update_where (λ t. t.id == s.id) (revoke_row now) db.refresh_tokens
  unfolding logout
  logout_rows now token db db' p s h e active owner = ground arith

  logout_inactive :
      (now : Time) (token : Text) (db db' : Db) (p : TokenPayload)
      → request (logout jwt passwords life now token) db ≡ (ok tt, db')
      → decode_token jwt now token TokenType.refresh ≡ some p
      → get_active now p.jti db ≡ none
      → db'.refresh_tokens ≡ db.refresh_tokens
  unfolding logout
  logout_inactive now token db db' p h e nothing = ground (arith, nothing)

  logout_undecoded :
      (now : Time) (token : Text) (db db' : Db)
      → decode_token jwt now token TokenType.refresh ≡ none
      → request (logout jwt passwords life now token) db
        ≡ (raised (app_error invalid_refresh_token), db)
  unfolding logout
  logout_undecoded now token db db' e = ground arith

  -- the stored row of a token belongs to the subject of the token
  abbrev pub IsIssued : Time → Text → Db → Type 0
  IsIssued now token db =
      (p : TokenPayload)
      → decode_token jwt now token TokenType.refresh ≡ some p
      → All (λ t. t.jti ≡ p.jti → t.user_id ≡ p.subject) db.refresh_tokens

  ended :
      (now now' : Time) (token : Text) (db db' : Db) (p : TokenPayload)
      → now ≤ now'
      → HasUniqueJtis db.refresh_tokens
      → All (λ t. t.jti ≡ p.jti → t.user_id ≡ p.subject) db.refresh_tokens
      → request (logout jwt passwords life now token) db ≡ (ok tt, db')
      → decode_token jwt now token TokenType.refresh ≡ some p
      → get_active now' p.jti db' ≡ none
  ended now now' token db db' p le u issued h e = elim (Option-cases (get_active now p.jti db)) [
    | inl nothing ↦
        rw (logout_inactive now token db db' p h e nothing)
          (inactive_later now now' p.jti db.refresh_tokens le nothing)
    | inr (s, active) ↦
        (let holds : is_active now p.jti s ≡ true =
            find?_holds (is_active now p.jti) db.refresh_tokens s active in
          let owner : s.user_id ≡ p.subject =
            find?-All (λ t. t.jti ≡ p.jti → t.user_id ≡ p.subject) (is_active now p.jti)
              db.refresh_tokens s issued active (ground arith) in
          rw (logout_rows now token db db' p s h e active owner) (
            revoked_inactive now now' p.jti s.id db.refresh_tokens
              (same_row now p.jti db.refresh_tokens s u active)))
  ]

  -- A logout ends a token: after a logout that was answered, the token is refused from then on, and
  -- the refusal changes nothing. The stored `jti`s are unique and the token's row is its subject's.
  pub logout_ends :
      (draws : Draws) (now now' : Time) (token : Text) (db db' : Db)
      → now ≤ now'
      → HasUniqueJtis db.refresh_tokens
      → IsIssued now token db
      → request (logout jwt passwords life now token) db ≡ (ok tt, db')
      → request (refresh jwt passwords life draws now' token) db'
        ≡ (raised (app_error invalid_refresh_token), db')
  logout_ends draws now now' token db db' le u issued h =
      elim (Option-cases (decode_token jwt now token TokenType.refresh)) [
        | inl nothing ↦ cc (logout_undecoded now token db db' nothing)
        | inr (p, e) ↦ inactive_refused draws now' token db' (λ q eq.
            rw (← (decode_again now now' token p q e eq).0)
              (ended now now' token db db' p le u (issued p e) h e))
      ]
