-- ===== src/Services/Conversation/Direct.antt =====
-- The direct key, and asking for a direct conversation again (`ConversationService.create_direct`).
use chatterbox.Prelude.{
  true, false, Option, none, some, List, [], ◌∷◌, ◌++◌, ◌≡◌, refl, inl, inr, arith, find?, is_some,
  text_eq_iff, text_lt_total, text_lt_asymm, Bool-cases, Option-cases, ◌==◌,
}
use chatterbox.Prelude.Rows.{find?-append_none, find?-append_some}
use chatterbox.Errors.{Exception, ok, raised}
use chatterbox.Models.{Uuid, Time, Text, Conversation, Db}
use chatterbox.Session.{request}
use chatterbox.Repositories.Conversations.{has_key, get_direct_by_key}
use chatterbox.UuidText.{str}
use chatterbox.Services.Conversation.{direct_key, new_conversation, find_or_create_direct}

-- The direct key of two users does not depend on their order.
pub direct_key_comm : (a b : Uuid) → direct_key a b ≡ direct_key b a
unfolding direct_key
direct_key_comm a b = ground (arith, text_lt_total (str a) (str b), text_lt_asymm (str a) (str b))

-- What `find_or_create_direct` answers, when it answers.
find_or_create_direct_answer :
    (others : Db → Db) (id : Uuid) (now : Time) (a b : Uuid) (db db' : Db) (c : Conversation)
    → find? (λ x. x.id == id) (others db).conversations ≡ none
    → request (find_or_create_direct others id now a b) db ≡ (ok c, db')
    → (get_direct_by_key (direct_key a b) db' ≡ some c)
      × ((a == b) ≡ false)
      × (is_some (find? (λ u. u.id == b) db.users) ≡ true)
unfolding find_or_create_direct
find_or_create_direct_answer others id now a b db db' c fresh h =
    let key : Text = direct_key a b in
    let new : List Conversation = new_conversation id now key a ∷ [] in
    ground (
      arith,
      text_eq_iff key key,
      find?-append_none (λ x. x.id == id) (others db).conversations new,
      find?-append_none (has_key key) (others db).conversations new,
    )

-- Once `find_or_create_direct` has answered one of two users with a conversation, it answers the
-- other with the same one, and writes nothing: whatever other requests had committed meanwhile, if
-- the id that was drawn was new and the first user still exists.
pub find_or_create_direct_again :
    (others others' : Db → Db) (id id' : Uuid) (now now' : Time) (a b : Uuid) (db db' : Db)
    (c : Conversation)
    → find? (λ x. x.id == id) (others db).conversations ≡ none
    → request (find_or_create_direct others id now a b) db ≡ (ok c, db')
    → is_some (find? (λ u. u.id == a) db'.users) ≡ true
    → request (find_or_create_direct others' id' now' b a) db' ≡ (ok c, db')
unfolding find_or_create_direct
find_or_create_direct_again others others' id id' now now' a b db db' c fresh h known =
    let answer = find_or_create_direct_answer others id now a b db db' c fresh h in
    let found : get_direct_by_key (direct_key b a) db' ≡ some c =
      rw (direct_key_comm b a) answer.0 in
    ground (arith, found, answer.1, known)

-- No conversation of a list has a given key.
abbrev pub IsUnused : Option Text → List Conversation → Type 0
IsUnused none cs = Unit
IsUnused (some k) cs = find? (has_key k) cs ≡ none

-- No two conversations have the same key.
abbrev pub HasUniqueKeys : List Conversation → Type 0
HasUniqueKeys [] = Unit
HasUniqueKeys (c ∷ cs) = IsUnused c.direct_key cs × HasUniqueKeys cs

append-IsUnused :
    (o : Option Text) (c : Conversation) (cs : List Conversation) (new : Conversation) (key : Text)
    → c.direct_key ≡ o
    → new.direct_key ≡ some key
    → has_key key c ≡ false
    → IsUnused o cs
    → IsUnused o (cs ++ new ∷ [])
append-IsUnused none c cs new key ec en h u = tt
append-IsUnused (some k) c cs new key ec en h u =
    ground
      (arith, text_eq_iff k key, text_eq_iff key k, find?-append_none (has_key k) cs (new ∷ []))

append-HasUniqueKeys :
    (cs : List Conversation) (new : Conversation) (key : Text)
    → new.direct_key ≡ some key
    → find? (has_key key) cs ≡ none
    → HasUniqueKeys cs
    → HasUniqueKeys (cs ++ new ∷ [])
append-HasUniqueKeys [] new key e h u = rw e (refl, tt)
append-HasUniqueKeys (c ∷ cs) new key e h u = elim (Bool-cases (has_key key c)) [
  | inl same ↦ cc (rw same at h)
  | inr other ↦ (
    append-IsUnused c.direct_key c cs new key refl e other u.0,
    append-HasUniqueKeys cs new key e (rw other at h) u.1,
  )
]

-- `find_or_create_direct`, whether it answers or raises, leaves the direct keys unique if they were
-- unique before and after what other requests committed meanwhile.
pub find_or_create_direct-HasUniqueKeys :
    (others : Db → Db) (id : Uuid) (now : Time) (a b : Uuid) (db : Db)
    → HasUniqueKeys db.conversations
    → HasUniqueKeys (others db).conversations
    → HasUniqueKeys (request (find_or_create_direct others id now a b) db).1.conversations
unfolding find_or_create_direct
find_or_create_direct-HasUniqueKeys others id now a b db h ho =
    let key : Text = direct_key a b in
    ground (
      arith,
      append-HasUniqueKeys (others db).conversations (new_conversation id now key a) key refl,
    )

-- A call that raises while no other request commits leaves the database as it was.
pub find_or_create_direct_raises :
    (id : Uuid) (now : Time) (u v : Uuid) (db db' : Db) (e : Exception)
    → request (find_or_create_direct (λ d. d) id now u v) db ≡ (raised e, db')
    → db' ≡ db
unfolding find_or_create_direct
find_or_create_direct_raises id now u v db db' e h =
    let key : Text = direct_key u v in
    let new : List Conversation = new_conversation id now key u ∷ [] in
    elim (Option-cases (find? (λ x. x.id == id) db.conversations)) [
      | inl fresh ↦
          ground (arith, fresh, h, find?-append_none (λ x. x.id == id) db.conversations new fresh)
      | inr (x, taken) ↦
          ground (arith, taken, h, find?-append_some (λ x. x.id == id) db.conversations new x taken)
    ]
