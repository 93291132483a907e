-- ===== src/Repositories/Users.antt =====
-- backend/app/repositories/user_repository.py
use chatterbox.Prelude.{
  ℕ, Bool, true, ◌||◌, ◌&&◌, not, List, filter, take, contains, strip, Option, some, ◌++◌, [], ◌∷◌,
  find?, any, update_where, ◌==◌, text_eq,
}
use chatterbox.Prelude.Sort.{sort_by}
use chatterbox.Models.{Uuid, Time, Text, User, Db}

abbrev pub get_by_id : Uuid → Db → Option User
get_by_id user_id db = find? (λ u. u.id == user_id) db.users

-- `lower` is Python's `str.lower`
abbrev pub get_by_email_or_username : (Text → Text) → Text → Db → Option User
get_by_email_or_username lower value db =
    let normalized = lower value in
    find? (λ u. text_eq u.email normalized || text_eq u.username normalized) db.users

abbrev pub email_or_username_exists : Text → Text → Db → Bool
email_or_username_exists email username db =
    any (λ u. text_eq u.email email || text_eq u.username username) db.users

-- no search text, or one that the name or the address contains
abbrev pub is_found : Text → User → Bool
is_found [] u = true
is_found (c ∷ cs) u = contains (c ∷ cs) u.username || contains (c ∷ cs) u.email

-- `before` is the order of the database's collation.
abbrev pub search : (Text → Text → Bool) → (Text → Text) → Text → Uuid → ℕ → Db → List User
search before lower query exclude_user_id limit db =
    let normalized = lower (strip query) in
    take limit (
      sort_by (λ a b. before a.username b.username)
        (filter (λ u. not (u.id == exclude_user_id) && is_found normalized u) db.users))

abbrev pub add : User → Db → Db
add user db = record db { users = db.users ++ user ∷ [] }

abbrev pub set_last_seen : Uuid → Time → Db → Db
set_last_seen user_id last_seen db = record db {
  users =
      update_where (λ u. u.id == user_id) (λ u. record u { last_seen = some last_seen }) db.users;
}
