-- ===== src/Services/Cursor/RoundTrip.antt =====
-- What `decode_cursor` makes of the texts that `encode_cursor` writes, and of others.
use Prim.Native.Nat.{◌^◌}
use chatterbox.Prelude.{
  ℕ, Bool, true, ◌&&◌, Option, none, some, List, [], ◌++◌, ◌≡◌, ◌≢◌, ◌⊎◌, inl, inr, refl, arith,
  ltb, Option-cases, All,
}
use chatterbox.Prelude.Every.{All-of-all}
use chatterbox.Errors.{Result, ok, raised, Exception, app_error, failure, invalid_cursor}
use chatterbox.Models.{Uuid, Time, Text}
use chatterbox.Repositories.Messages.{Cursor}
use chatterbox.UuidText.{str, IsHexDigit, hex_digit}
use chatterbox.UuidText.RoundTrip.{parse-str, all-str}
use chatterbox.Services.History.{CursorCodec}
use chatterbox.Services.Cursor.{
  JsonField, text, null, other, Payload, object, not_object, Library, encode_cursor, decode_cursor,
  read_bytes, read_payload, read_created_at, read_id, both,
}
use chatterbox.Services.Cursor.Base64.{
  is_ascii, urlsafe_b64encode, rstrip_padding, urlsafe_b64decode, padding,
}
use chatterbox.Services.Cursor.Base64.RoundTrip.{
  IsByte, urlsafe_b64decode-urlsafe_b64encode, encoded_none,
}

IsHexDigit-ascii : (c : ℕ) → IsHexDigit c → ltb c 128 ≡ true
unfolding hex_digit
IsHexDigit-ascii c (d, h, e) = rw e (ground arith)

pub ascii-IsByte : (bs : Text) → is_ascii bs ≡ true → All IsByte bs
ascii-IsByte bs h = All-of-all IsByte (λ c. ltb c 128) bs (λ c e. ground arith) h

module _ (library : Library) where
  open library use {
    representable, isoformat, fromisoformat, dumps, loads, decode_utf8, base16, isoformat_ascii,
    fromisoformat-isoformat, dumps_ascii, dumps_nonempty, loads-dumps, decode_utf8_ascii,
  }

  -- a text of ASCII characters, encoded as `encode_cursor` does, is read again
  decode_written :
      (p : Text)
      → is_ascii p ≡ true
      → decode_cursor library (rstrip_padding (urlsafe_b64encode p))
        ≡ read_payload library (loads p)
  unfolding decode_cursor read_bytes
  decode_written p h =
      rw (urlsafe_b64decode-urlsafe_b64encode p (ascii-IsByte p h), decode_utf8_ascii p h) refl

  -- a time that has a text, and an id of 128 bits
  abbrev pub in_range : Cursor → Bool
  in_range (t, i) = representable t && ltb i (2 ^ 128)

  -- `decode_cursor` reads back what `encode_cursor` wrote.
  pub decode_cursor-encode_cursor :
      (c : Cursor) → in_range c ≡ true → decode_cursor library (encode_cursor library c) ≡ ok c
  unfolding encode_cursor read_payload read_created_at read_id
  decode_cursor-encode_cursor (t, i) h =
      rw
        (
          decode_written (dumps (isoformat t) (str i)) (dumps_ascii (isoformat t) (str i)),
          loads-dumps (isoformat t) (str i) (isoformat_ascii t)
              (all-str (λ c. ltb c 128) i refl IsHexDigit-ascii),
          fromisoformat-isoformat t (ground arith),
          parse-str base16 i (ground arith),
        )
        refl

  -- A codec for the pages.
  pub encode_cursor_nonempty : (c : Cursor) → encode_cursor library c ≢ []
  unfolding encode_cursor
  encode_cursor_nonempty (t, i) e = dumps_nonempty (isoformat t) (str i) (
      encoded_none (dumps (isoformat t) (str i))
        (ascii-IsByte (dumps (isoformat t) (str i)) (dumps_ascii (isoformat t) (str i))) e)

  unfoldable pub cursor_codec : CursorCodec
  cursor_codec = record {
    writable = in_range;
    encode = encode_cursor library;
    decode = decode_cursor library;
    decode-encode = decode_cursor-encode_cursor;
    encode_nonempty = encode_cursor_nonempty;
  }

  read_created_at_raises :
      (o : Option JsonField) (e : Exception)
      → read_created_at library o ≡ raised e
      → e ≡ app_error invalid_cursor
  unfolding read_created_at
  read_created_at_raises none e h = cc
  read_created_at_raises (some (text t)) e h = ground arith
  read_created_at_raises (some null) e h = cc
  read_created_at_raises (some other) e h = cc

  read_id_raises :
      (o : Option JsonField) (e : Exception)
      → read_id library o ≡ raised e
      → (e ≡ app_error invalid_cursor) ⊎ ((o ≡ some other) × (e ≡ failure))
  unfolding read_id
  read_id_raises none e h = inl (cc)
  read_id_raises (some (text t)) e h = inl (ground arith)
  read_id_raises (some null) e h = inl (cc)
  read_id_raises (some other) e h = inr (refl, cc)

  both_raises :
      (r : Result Time) (s : Result Uuid) (e : Exception)
      → both library r s ≡ raised e
      → (r ≡ raised e) ⊎ (s ≡ raised e)
  both_raises (raised f) s e h = inl (cc)
  both_raises (ok t) (raised f) e h = inr (cc)
  both_raises (ok t) (ok i) e h = absurd (cc)

  read_payload_raises :
      (o : Option Payload) (e : Exception)
      → read_payload library o ≡ raised e
      → (e ≡ app_error invalid_cursor)
        ⊎ ((created_at : JsonField) × (o ≡ some (object (some created_at) (some other)))
            × (e ≡ failure))
  unfolding read_payload
  read_payload_raises none e h = inl (cc)
  read_payload_raises (some not_object) e h = inl (cc)
  read_payload_raises (some (object none id)) e h = inl (cc)
  read_payload_raises (some (object (some c) id)) e h =
      elim (both_raises (read_created_at library (some c)) (read_id library id) e h) [
        | inl p ↦ inl (read_created_at_raises (some c) e p)
        | inr p ↦ (elim (read_id_raises id e p) [
          | inl q ↦ inl q
          | inr (q, f) ↦ inr (c, rw q refl, f)
        ])
      ]

  -- `decode_cursor` raises nothing but INVALID_CURSOR, unless the cursor is an object with a date and
  -- an `id` that is neither a text nor null.
  pub decode_cursor_raises :
      (cursor : Text) (e : Exception)
      → decode_cursor library cursor ≡ raised e
      → (e ≡ app_error invalid_cursor)
        ⊎ ((bytes : List ℕ) × (p : Text) × (created_at : JsonField) × (urlsafe_b64decode
                (cursor ++ padding cursor)
              ≡ some bytes)
            × (decode_utf8 bytes ≡ some p)
            × (loads p ≡ some (object (some created_at) (some other)))
            × (e ≡ failure))
  unfolding decode_cursor read_bytes
  decode_cursor_raises cursor e h =
      elim (Option-cases (urlsafe_b64decode (cursor ++ padding cursor))) [
        | inl n ↦ inl (ground arith)
        | inr (bytes, b) ↦ (elim (Option-cases (decode_utf8 bytes)) [
          | inl n ↦ inl (ground arith)
          | inr (p, u) ↦ (elim (read_payload_raises (loads p) e (ground arith)) [
            | inl q ↦ inl q
            | inr (c, q, f) ↦ inr (bytes, p, c, b, u, q, f)
          ])
        ])
      ]

  -- Such a cursor, made of a date that can be read, is not answered with INVALID_CURSOR.
  pub decode_cursor_fails :
      (p created_at : Text) (time : Time)
      → is_ascii p ≡ true
      → loads p ≡ some (object (some (text created_at)) (some other))
      → fromisoformat created_at ≡ some time
      → decode_cursor library (rstrip_padding (urlsafe_b64encode p)) ≡ raised failure
  unfolding read_payload read_created_at read_id
  decode_cursor_fails p created_at time a l f = rw (decode_written p a, l, f) refl
