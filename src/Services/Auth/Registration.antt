-- ===== src/Services/Auth/Registration.antt =====
-- Logging in after a registration (backend/app/services/auth_service.py).
use chatterbox.Prelude.{
  Bool, true, false, ◌||◌, none, some, List, [], ◌∷◌, ◌++◌, ◌≡◌, ◌≢◌, refl, arith, any, find?,
  text_eq, text_eq_iff, All, inl, inr, Bool-cases,
}
use chatterbox.Prelude.Rows.{find?-append_none}
use chatterbox.Errors.{integrity_error, ok, raised}
use chatterbox.Models.{Time, Text, User, Db}
use chatterbox.Session.{Session, request, ◌>>=◌, ◌>>◌}
use chatterbox.Repositories.Users
use chatterbox.Tokens.{Jwt, Passwords}
use chatterbox.Services.Auth.{
  RegisterRequest, TokenResponse, Draws, Lifetimes, or_taken, insert_user, issue_token_pair,
  new_user, token_pair, register, log_in,
}

-- nobody whose email and username are others is found by a username
none_named :
    (email name : Text) (us : List User)
    → All (λ u. u.email ≢ name) us
    → any (λ u. text_eq u.email email || text_eq u.username name) us ≡ false
    → find? (λ u. text_eq u.email name || text_eq u.username name) us ≡ none
none_named email name [] h free = refl
none_named email name (u ∷ us) (other, h) free =
    ground (arith, other, text_eq_iff u.email name, none_named email name us h)

module _ (others : Db → Db) (u : User) (s : Session) where
  insert_taken :
      Users.email_or_username_exists u.email u.username (others s.committed) ≡ true
      → insert_user others u s ≡ (
        raised integrity_error,
        record { committed = others s.committed; working = others s.committed },
      )
  unfolding insert_user
  insert_taken e = rw e refl

  insert_free :
      Users.email_or_username_exists u.email u.username (others s.committed) ≡ false
      → insert_user others u s ≡ (
        ok tt,
        record { committed = others s.committed; working = Users.add u (others s.committed) },
      )
  unfolding insert_user
  insert_free e = rw e refl

module _ (jwt : Jwt) (passwords : Passwords) (life : Lifetimes) where
  registered :
      (others : Db → Db) (draws : Draws) (now : Time) (d : RegisterRequest) (db db' : Db)
      (r : TokenResponse)
      → request (register jwt passwords life others draws now d) db ≡ (ok r, db')
      → (db'.users ≡ (others db).users ++ new_user jwt passwords life draws now d ∷ [])
        × (r.user ≡ new_user jwt passwords life draws now d)
        × (Users.email_or_username_exists d.email d.username (others db) ≡ false)
  unfolding register issue_token_pair
  registered others draws now d db db' r h =
      let new : User = new_user jwt passwords life draws now d in
      let begun : Session = record { committed = db; working = db } in
      elim (Bool-cases (Users.email_or_username_exists d.email d.username db)) [
        | inl taken ↦ (let h' = rw taken at h in ground arith)
        | inr free ↦
            elim (Bool-cases (Users.email_or_username_exists d.email d.username (others db))) [
              | inl meanwhile ↦
                  (let h' =
                      rw (free, ◌>>◌, ◌>>=◌, or_taken, insert_taken others new begun meanwhile) at
                        h in
                    ground arith)
              | inr still ↦
                  (let h' =
                      rw (free, ◌>>◌, ◌>>=◌, or_taken, insert_free others new begun still) at h in
                    ground (arith, still))
            ]
      ]

  logged_in :
      (lower : Text → Text) (draws : Draws) (now : Time) (login password : Text) (db : Db)
      (u : User)
      → Users.get_by_email_or_username lower login db ≡ some u
      → passwords.verify password u.password_hash ≡ true
      → (request (log_in jwt passwords life lower draws now login password) db).0
        ≡ ok (token_pair jwt passwords life draws now u)
  unfolding log_in issue_token_pair
  logged_in lower draws now login password db u found right = ground (arith, found, right)

  -- Who registered can log in with the username and the password at any later time, whatever other
  -- requests had committed before the insert, if the username is in lower case and nobody's email.
  pub register-log_in :
      (others : Db → Db) (lower : Text → Text) (draws draws' : Draws) (now now' : Time)
      (d : RegisterRequest) (db db' : Db) (r : TokenResponse)
      → lower d.username ≡ d.username
      → All (λ u. u.email ≢ d.username) (others db).users
      → request (register jwt passwords life others draws now d) db ≡ (ok r, db')
      → (request (log_in jwt passwords life lower draws' now' d.username d.password) db').0
        ≡ ok (token_pair jwt passwords life draws' now' r.user)
  register-log_in others lower draws draws' now now' d db db' r low other h =
      let (users, user, free) = registered others draws now d db db' r h in
      let new : User = new_user jwt passwords life draws now d in
      let is_named : User → Bool =
        λ u. text_eq u.email d.username || text_eq u.username d.username in
      let nobody : find? is_named (others db).users ≡ none =
        none_named d.email d.username (others db).users other free in
      logged_in lower draws' now' d.username d.password db' r.user
        (rw (users, low, user)
          (ground (
            arith,
            text_eq_iff d.username d.username,
            nobody,
            find?-append_none is_named (others db).users (new ∷ []),
          )))
        (rw user (passwords.verify-hash draws.salt d.password))
