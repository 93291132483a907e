-- ===== src/Services/History/Pages.antt =====
-- The pages that `list` gives, followed from cursor to cursor.
use chatterbox.Prelude.{
  ℕ, Bool, true, false, ◌&&◌, Option, none, some, List, ◌≡◌, refl, arith, filter, take, drop,
  get_last?, is_some, All,
}
use chatterbox.Prelude.Sort.{sort_by}
use chatterbox.Errors.{ok}
use chatterbox.Models.{Uuid, Text, Message, Db}
use chatterbox.Session.{request}
use chatterbox.Repositories.Messages.{
  Cursor, position, precedes, earlier, later, is_visible, is_before, page_before, page_after,
}
use chatterbox.Repositories.Conversations
use chatterbox.Services.Conversation.{get_authorized}
use chatterbox.Services.History.{
  CursorCodec, is_given, page_forward, page_backward, list_after, list_before, list,
}
use chatterbox.Services.History.Ordered.{HasUniqueIds, sort_after_last}

precedes_irrefl : (c : Cursor) → precedes c c ≡ false
precedes_irrefl (t, i) = ground arith

precedes_trans : (c d e : Cursor) → precedes c d ≡ true → precedes d e ≡ true → precedes c e ≡ true
precedes_trans (t, i) (u, j) (v, k) p q = ground arith

precedes_total : (c d : Cursor) → precedes c d ≡ false → precedes d c ≡ false → c ≡ d
precedes_total (t, i) (u, j) p q = ground arith

abbrev follows : Cursor → Cursor → Bool
follows c d = precedes d c

follows_trans : (c d e : Cursor) → follows c d ≡ true → follows d e ≡ true → follows c e ≡ true
follows_trans c d e p q = precedes_trans e d c q p

follows_total : (c d : Cursor) → follows c d ≡ false → follows d c ≡ false → c ≡ d
follows_total c d p q = precedes_total c d q p

-- The messages that a reader of a conversation is to see after a place, oldest first.
abbrev pub history_after : Uuid → Cursor → Db → List Message
history_after conversation_id c db =
    sort_by earlier
      (filter (λ m. is_visible conversation_id m && precedes c (position m)) db.messages)

-- The same before a place, if one is given, newest first.
abbrev pub history_before : Uuid → Option Cursor → Db → List Message
history_before conversation_id c db =
    sort_by later (filter (λ m. is_visible conversation_id m && is_before c m) db.messages)

abbrev is_after : Uuid → Cursor → Message → Bool
is_after conversation_id c m = is_visible conversation_id m && precedes c (position m)

pub history_after_last :
    (conversation_id : Uuid) (c : Cursor) (n : ℕ) (db : Db) (m : Message)
    → HasUniqueIds db.messages
    → get_last? (take n (history_after conversation_id c db)) ≡ some m
    → history_after conversation_id (position m) db ≡ drop n (history_after conversation_id c db)
history_after_last conversation_id c n db m u e =
    sort_after_last precedes precedes_irrefl precedes_trans precedes_total
      (is_visible conversation_id) (λ y. precedes c (position y)) n db.messages m
      (λ x y p q. precedes_trans c (position x) (position y) p q) u e

is_before_closed :
    (c : Option Cursor) (x y : Message)
    → is_before c x ≡ true
    → follows (position x) (position y) ≡ true
    → is_before c y ≡ true
is_before_closed none x y p q = refl
is_before_closed (some c) x y p q = precedes_trans (position y) (position x) c q p

pub history_before_last :
    (conversation_id : Uuid) (c : Option Cursor) (n : ℕ) (db : Db) (m : Message)
    → HasUniqueIds db.messages
    → get_last? (take n (history_before conversation_id c db)) ≡ some m
    → history_before conversation_id (some (position m)) db
      ≡ drop n (history_before conversation_id c db)
history_before_last conversation_id c n db m u e =
    sort_after_last follows precedes_irrefl follows_trans follows_total (is_visible conversation_id)
      (is_before c) n db.messages m (is_before_closed c) u e

is_given-encode : (codec : CursorCodec) (c : Cursor) → is_given (some (codec.encode c)) ≡ true
is_given-encode codec c = ground (arith, codec.encode_nonempty c)

-- A user who may read a conversation.
pub record MayRead (conversation_id user_id : Uuid) (db : Db) : Type 0 where
  pub exists : is_some (Conversations.get_by_id conversation_id db) ≡ true
  pub member : Conversations.is_member conversation_id user_id db ≡ true

-- a cursor that is given can be written
abbrev pub is_writable : CursorCodec → Option Cursor → Bool
is_writable codec none = true
is_writable codec (some c) = codec.writable c

abbrev pub encode_option : CursorCodec → Option Cursor → Option Text
encode_option codec none = none
encode_option codec (some c) = some (codec.encode c)

module _ (codec : CursorCodec) (conversation_id user_id : Uuid) (limit : ℕ) (db : Db) where
  -- the answer to a request for what follows a cursor
  pub list_after_page :
      (c : Cursor)
      → codec.writable c ≡ true
      → MayRead conversation_id user_id db
      → request (list codec conversation_id user_id limit none (some (codec.encode c))) db
        ≡ (ok (page_forward codec limit db (page_after conversation_id limit c db)), db)
  unfolding list list_after get_authorized
  list_after_page c w may =
      ground (arith, may.exists, may.member, is_given-encode codec c, codec.decode-encode c w)

  -- the answer to a request for what precedes a cursor, or for the newest messages
  pub list_before_page :
      (c : Option Cursor)
      → is_writable codec c ≡ true
      → MayRead conversation_id user_id db
      → request (list codec conversation_id user_id limit (encode_option codec c) none) db
        ≡ (ok (page_backward codec limit db (page_before conversation_id limit c db)), db)
  unfolding list list_before get_authorized
  list_before_page none w may = ground (arith, may.exists, may.member)
  list_before_page (some c) w may =
      ground (arith, may.exists, may.member, is_given-encode codec c, codec.decode-encode c w)

-- the messages of a history have places that can be written
abbrev pub IsWritable : CursorCodec → List Message → Type 0
IsWritable codec ms = All (λ m. codec.writable (position m) ≡ true) ms
