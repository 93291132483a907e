-- ===== src/Services/Cursor.antt =====
-- `encode_cursor` and `decode_cursor` of backend/app/services/message_service.py. `datetime`, `json`
-- and the decoding of UTF-8 are parameters, with what Python documents of them.
pub mod Base64
pub mod RoundTrip
pub mod Refused
use chatterbox.Prelude.{ℕ, Bool, true, Option, none, some, List, [], ◌++◌, ◌≡◌, ◌≢◌}
use chatterbox.Errors.{Result, ok, raised, Exception, app_error, failure, invalid_cursor}
use chatterbox.Models.{Uuid, Time, Text}
use chatterbox.Repositories.Messages.{Cursor}
use chatterbox.UuidText.{str, Base16, parse}
use chatterbox.Services.Cursor.Base64.{
  is_ascii, urlsafe_b64encode, rstrip_padding, urlsafe_b64decode, padding,
}

-- what `json.loads` gives: a field of an object, or the absence of the object
pub data JsonField : Type 0 where
  text : Text → JsonField
  null other : JsonField

pub data Payload : Type 0 where
  object : Option JsonField → Option JsonField → Payload
  not_object : Payload

-- `dumps a b` is json.dumps({"created_at": a, "id": b}); `loads` keeps the fields of these names.
-- `representable` are the times between the years 1 and 9999.
pub record Library : Type 0 where
  pub representable : Time → Bool
  pub isoformat : Time → Text
  pub fromisoformat : Text → Option Time
  pub dumps : Text → Text → Text
  pub loads : Text → Option Payload
  pub decode_utf8 : List ℕ → Option Text
  pub base16 : Base16
  pub isoformat_ascii : (t : Time) → is_ascii (isoformat t) ≡ true
  pub fromisoformat-isoformat :
      (t : Time) → representable t ≡ true → fromisoformat (isoformat t) ≡ some t
  pub dumps_ascii : (a b : Text) → is_ascii (dumps a b) ≡ true
  pub dumps_nonempty : (a b : Text) → dumps a b ≢ []
  pub loads-dumps :
      (a b : Text)
      → is_ascii a ≡ true
      → is_ascii b ≡ true
      → loads (dumps a b) ≡ some (object (some (text a)) (some (text b)))
  pub decode_utf8_ascii : (bs : List ℕ) → is_ascii bs ≡ true → decode_utf8 bs ≡ some bs

abbrev pub invalid {ℓ} : {A : Type ℓ} → Result A
invalid = raised (app_error invalid_cursor)

module _ (library : Library) where
  open library use {isoformat, fromisoformat, dumps, loads, decode_utf8, base16}

  -- `json.dumps` writes ASCII, of which `encode` are the same bytes.
  unfoldable pub encode_cursor : Cursor → Text
  encode_cursor (created_at, id) =
      rstrip_padding (urlsafe_b64encode (dumps (isoformat created_at) (str id)))

  abbrev pub valid_or_invalid {ℓ} : {A : Type ℓ} → Option A → Result A
  valid_or_invalid none = invalid
  valid_or_invalid (some a) = ok a

  -- `datetime.fromisoformat(payload["created_at"])`: a KeyError, a TypeError and a ValueError are
  -- caught
  unfoldable pub read_created_at : Option JsonField → Result Time
  read_created_at none = invalid
  read_created_at (some (text t)) = valid_or_invalid (fromisoformat t)
  read_created_at (some null) = invalid
  read_created_at (some other) = invalid

  -- `UUID(payload["id"])`: None is a TypeError; of a number, a list or an object the constructor
  -- takes the attribute `replace`, and the AttributeError is not caught
  unfoldable pub read_id : Option JsonField → Result Uuid
  read_id none = invalid
  read_id (some (text t)) = valid_or_invalid (parse base16 t)
  read_id (some null) = invalid
  read_id (some other) = raised failure

  abbrev pub both : Result Time → Result Uuid → Result Cursor
  both (raised e) id = raised e
  both (ok t) (raised e) = raised e
  both (ok t) (ok i) = ok (t, i)

  unfoldable pub read_payload : Option Payload → Result Cursor
  unfolding read_created_at read_id
  read_payload none = invalid
  read_payload (some not_object) = invalid
  read_payload (some (object created_at id)) = both (read_created_at created_at) (read_id id)

  abbrev pub read_json : Option Text → Result Cursor
  read_json none = invalid
  read_json (some payload) = read_payload (loads payload)

  unfoldable pub read_bytes : Option (List ℕ) → Result Cursor
  unfolding read_payload
  read_bytes none = invalid
  read_bytes (some bytes) = read_json (decode_utf8 bytes)

  unfoldable pub decode_cursor : Text → Result Cursor
  unfolding read_bytes
  decode_cursor cursor = read_bytes (urlsafe_b64decode (cursor ++ padding cursor))
