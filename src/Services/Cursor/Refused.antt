-- ===== src/Services/Cursor/Refused.antt =====
-- A page asked for with a cursor that cannot be read.
use chatterbox.Prelude.{ℕ, none, some, [], ◌≡◌, ◌≢◌, arith, true}
use chatterbox.Errors.{raised, failure}
use chatterbox.Models.{Uuid, Time, Text, Db}
use chatterbox.Session.{request}
use chatterbox.Services.Conversation.{get_authorized}
use chatterbox.Services.History.{list, list_after, is_given}
use chatterbox.Services.History.Pages.{MayRead}
use chatterbox.Services.Cursor.{text, other, object, Library}
use chatterbox.Services.Cursor.Base64.{is_ascii, urlsafe_b64encode, rstrip_padding}
use chatterbox.Services.Cursor.Base64.RoundTrip.{encoded_none}
use chatterbox.Services.Cursor.RoundTrip.{cursor_codec, decode_cursor_fails, ascii-IsByte}

module _ (library : Library) where
  open library use {fromisoformat, loads}

  given : (t : Text) → t ≢ [] → is_given (some t) ≡ true
  given t h = ground arith

  -- A member who asks for what follows a cursor whose JSON has a date and, as its `id`, a number, a
  -- list or an object is not told that the cursor is invalid: the exception of `UUID` leaves `list`.
  pub list_fails :
      (conversation_id user_id : Uuid) (limit : ℕ) (db : Db) (p created_at : Text) (time : Time)
      → MayRead conversation_id user_id db
      → p ≢ []
      → is_ascii p ≡ true
      → loads p ≡ some (object (some (text created_at)) (some other))
      → fromisoformat created_at ≡ some time
      → request
          (list
            (cursor_codec library)
            conversation_id
            user_id
            limit
            none
            (some (rstrip_padding (urlsafe_b64encode p))))
          db
        ≡ (raised failure, db)
  unfolding list list_after get_authorized cursor_codec
  list_fails conversation_id user_id limit db p created_at time may n a l f =
      let t : Text = rstrip_padding (urlsafe_b64encode p) in
      ground (
        arith,
        may.exists,
        may.member,
        given t (λ e. n (encoded_none p (ascii-IsByte p a) e)),
        decode_cursor_fails library p created_at time a l f,
      )
