-- ===== src/Examples/Accounts.antt =====
-- Logging in, refreshing and logging out.
use chatterbox.Prelude.{arith, codes, false, refl, text_eq, text_eq_iff, ◌+◌, ◌≡◌, ◌≢◌}
use chatterbox.Errors.{app_error, ok, raised, invalid_refresh_token}
use chatterbox.Models.{Uuid, Time, Text, User, Db}
use chatterbox.Session.{request}
use chatterbox.Repositories.Users
use chatterbox.Tokens.{create_token, decode_token}
use chatterbox.Services.Auth.Registration.{register-log_in}
use chatterbox.Services.Auth.{
  register, new_user, RegisterRequest, Draws, TokenResponse, token_pair, log_in, refresh, logout,
}
use chatterbox.Services.Auth.Stored.{HasUniqueJtis, IsFresh}
use chatterbox.Services.Auth.Rotation.{IsIssued, refresh_once, logout_ends}
use chatterbox.Examples.World.{jwt, passwords, life, lower, user, db}

abbrev pub draws : Uuid → Draws
draws n = record { user_id = n; access_jti = n + 1; refresh_jti = n + 2; row_id = n + 3; salt = 0 }

abbrev pub ann : User
ann = user 1 (codes "ann")

abbrev pub pair : Uuid → Time → TokenResponse
pair n now = token_pair jwt passwords life (draws n) now ann

abbrev logged_in : Db
logged_in =
    (request (log_in jwt passwords life lower (draws 1000) 100 (codes "ann") (codes "secret")) db).1

abbrev refreshed : Db
refreshed =
    (request (refresh jwt passwords life (draws 2000) 200 (pair 1000 100).refresh_token)
      logged_in).1

abbrev logged_out : Db
logged_out = (request (logout jwt passwords life 200 (pair 1000 100).refresh_token) logged_in).1

swapped :
    request (refresh jwt passwords life (draws 2000) 200 (pair 1000 100).refresh_token) logged_in
    ≡ (ok (pair 2000 200), refreshed)
unfolding log_in refresh create_token decode_token
swapped = refl

unique_jti : HasUniqueJtis logged_in.refresh_tokens
unfolding log_in
unique_jti = (tt, tt)

IsFresh-jti : IsFresh (draws 2000).refresh_jti logged_in.refresh_tokens
unfolding log_in
IsFresh-jti = ((λ e. omega arith), tt)

refresh_once_example :
    request (refresh jwt passwords life (draws 3000) 300 (pair 1000 100).refresh_token) refreshed
    ≡ (raised (app_error invalid_refresh_token), refreshed)
refresh_once_example =
    refresh_once jwt passwords life (draws 2000) (draws 3000) 200 300 (pair 1000 100).refresh_token
      logged_in refreshed (pair 2000 200) unique_jti IsFresh-jti swapped

left :
    request (logout jwt passwords life 200 (pair 1000 100).refresh_token) logged_in
    ≡ (ok tt, logged_out)
unfolding log_in logout create_token decode_token
left = refl

issued : IsIssued jwt passwords life 200 (pair 1000 100).refresh_token logged_in
unfolding log_in create_token decode_token
issued p e = (λ _. cc, tt)

logout_ends_example :
    request (refresh jwt passwords life (draws 3000) 300 (pair 1000 100).refresh_token) logged_out
    ≡ (raised (app_error invalid_refresh_token), logged_out)
logout_ends_example =
    logout_ends jwt passwords life (draws 3000) 200 300 (pair 1000 100).refresh_token logged_in
      logged_out (omega arith) unique_jti issued left

abbrev name : Text
name = codes "dan"

abbrev newcomer : RegisterRequest
newcomer = record { username = codes "dan"; email = codes "d@x.org"; password = codes "pass" }

abbrev nobody : Db → Db
nobody d = d

abbrev enrolled : Db
enrolled = (request (register jwt passwords life nobody (draws 5000) 100 newcomer) db).1

abbrev welcome : TokenResponse
welcome =
    token_pair jwt passwords life (draws 5000) 100
      (new_user jwt passwords life (draws 5000) 100 newcomer)

accepted :
    request (register jwt passwords life nobody (draws 5000) 100 newcomer) db
    ≡ (ok welcome, enrolled)
unfolding register create_token
accepted = refl

unlike : (a b : Text) → text_eq a b ≡ false → a ≢ b
unlike a b e same = (let equal = (text_eq_iff a b).1 same in cc)

register-log_in_example :
    (request
      (log_in jwt passwords life lower (draws 6000) 200 (codes "dan") (codes "pass"))
      enrolled).0
    ≡ ok (token_pair jwt passwords life (draws 6000) 200 welcome.user)
register-log_in_example =
    register-log_in jwt passwords life nobody lower (draws 5000) (draws 6000) 100 200 newcomer db
      enrolled welcome refl
      (
        unlike (codes "ann") name refl,
        (unlike (codes "bob") name refl, (unlike (codes "eve") name refl, tt)),
      )
      accepted
