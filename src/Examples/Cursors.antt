-- ===== src/Examples/Cursors.antt =====
-- Python's library as far as cursors need it, on simple texts: a date is its number in hexadecimal
-- digits, and the two fields of an object stand behind the length of the first.
use Prim.Native.Nat.{◌^◌}
use native.Mathlib.Nat.{add-zero, add-suc, suc-add, zero-add}
use native.Mathlib.Numerals.{add-one}
use chatterbox.Prelude.{
  ℕ, zero, suc, ◌+◌, Bool, true, ◌&&◌, ◌||◌, Option, none, some, [], ◌∷◌, ◌++◌, ◌≡◌, ◌≢◌, refl,
  arith, ltb, leb, ltb→lt, All, take, drop, length, codes, if◌then◌else◌, Bool-cases, inl, inr,
  ◌==◌, ap, ◌∙◌,
}
use chatterbox.Prelude.Every.{all, all-of-All, all-append}
use chatterbox.Prelude.Prefixes.{take-append, drop-append}
use chatterbox.Models.{Time, Text}
use chatterbox.UuidText.{hex_digit, hex_digits, hex_number, Base16, IsHexDigit, digit_value}
use chatterbox.UuidText.Digits.{hex_digits-All, hex_number-hex_digits}
use chatterbox.Services.Cursor.{
  text, other, Payload, object, not_object, Library, encode_cursor, decode_cursor,
}
use chatterbox.Errors.{ok, raised, failure}
use chatterbox.Session.{request}
use chatterbox.Services.History.{list}
use chatterbox.Services.Cursor.RoundTrip.{decode_cursor-encode_cursor, cursor_codec}
use chatterbox.Services.Cursor.Refused.{list_fails}
use chatterbox.Examples.World.{db}
use chatterbox.Services.Cursor.Base64.{is_ascii, urlsafe_b64encode, rstrip_padding}

is_hex : ℕ → Bool
is_hex c = (leb 48 c && leb c 57) || (leb 97 c && leb c 102)

IsHexDigit-is_hex : (c : ℕ) → IsHexDigit c → is_hex c ≡ true
unfolding is_hex hex_digit
IsHexDigit-is_hex c (d, h, e) = rw e (ground arith)

read_hex : Text → Option ℕ
unfolding is_hex
read_hex cs = if all is_hex cs then some (hex_number 0 cs) else none

read_hex_digits : (cs : Text) → cs ≢ [] → All IsHexDigit cs → read_hex cs ≡ some (hex_number 0 cs)
unfolding read_hex
read_hex_digits cs n h = rw (all-of-All IsHexDigit is_hex cs IsHexDigit-is_hex h) refl

abbrev base16 : Base16
base16 = record { int_16 = read_hex; int_16_digits = read_hex_digits }

date_text : Time → Text
date_text t = hex_digits 32 t []

date_text-All : (t : Time) → All IsHexDigit (date_text t)
unfolding date_text
date_text-All t = hex_digits-All 32 t [] tt

date_text_ascii : (t : Time) → is_ascii (date_text t) ≡ true
date_text_ascii t =
    all-of-All IsHexDigit (λ c. ltb c 128) (date_text t)
      (λ c h. let (d, k, e) = h in unfold hex_digit in rw e (ground arith)) (date_text-All t)

read_hex-date_text : (t : Time) → ltb t (2 ^ 128) ≡ true → read_hex (date_text t) ≡ some t
unfolding read_hex date_text
read_hex-date_text t h =
    rw
      (
        all-of-All IsHexDigit is_hex (hex_digits 32 t []) IsHexDigit-is_hex
            (unfold date_text in date_text-All t),
        hex_number-hex_digits 32 t 0 [] (ltb→lt t (2 ^ 128) h),
      )
      (ap (λ (x : ℕ). some x) (omega arith))

-- the length in ones, a zero, and the two texts
ones : ℕ → Text → Text
ones zero t = 48 ∷ t
ones (suc n) t = 49 ∷ ones n t

fields : Text → Text → Text
unfolding ones
fields a b = if is_ascii a && is_ascii b then ones (length a) (a ++ b) else 48 ∷ []

-- an `x` in front stands for an object whose `id` is a number
split : ℕ → Text → Option Payload
split n [] = none
split n (c ∷ cs) =
    let more = split (n + 1) cs in
    if c == 49
    then more
    else if c == 48
    then some (object (some (text (take n cs))) (some (text (drop n cs))))
    else if c == 120
    then some (object (some (text cs)) (some other))
    else some not_object

ones_ascii : (n : ℕ) (t : Text) → is_ascii t ≡ true → is_ascii (ones n t) ≡ true
unfolding ones
ones_ascii zero t h = ground arith
ones_ascii (suc n) t h = ground (arith, ones_ascii n t)

ones_nonempty : (n : ℕ) (t : Text) → ones n t ≢ []
unfolding ones
ones_nonempty zero t e = cc
ones_nonempty (suc n) t e = cc

split-ones :
    (n k : ℕ) (t : Text)
    → split n (ones k t)
      ≡ some (object (some (text (take (n + k) t))) (some (text (drop (n + k) t))))
unfolding split ones
split-ones n zero t = rw add-zero refl
split-ones n (suc k) t = split-ones (n + 1) k t ∙ rw (add-one, suc-add, add-suc) refl

fields_ascii : (a b : Text) → is_ascii (fields a b) ≡ true
unfolding fields
fields_ascii a b = elim (Bool-cases (is_ascii a && is_ascii b)) [
  | inl e ↦ rw e (
      ones_ascii (length a) (a ++ b)
        (all-append (λ c. ltb c 128) a b (ground arith) (ground arith)))
  | inr e ↦ rw e refl
]

fields_nonempty : (a b : Text) → fields a b ≢ []
unfolding fields
fields_nonempty a b = elim (Bool-cases (is_ascii a && is_ascii b)) [
  | inl e ↦ rw e (ones_nonempty (length a) (a ++ b))
  | inr e ↦ rw e (λ f. cc)
]

split-fields :
    (a b : Text)
    → is_ascii a ≡ true
    → is_ascii b ≡ true
    → split 0 (fields a b) ≡ some (object (some (text a)) (some (text b)))
unfolding fields
split-fields a b h k =
    rw (h, k)
      (split-ones 0 (length a) (a ++ b) ∙ rw (zero-add, take-append a b, drop-append a b) refl)

abbrev library : Library
library = record {
  representable = λ t. ltb t (2 ^ 128);
  isoformat = date_text;
  fromisoformat = read_hex;
  dumps = fields;
  loads = split 0;
  decode_utf8 = λ bs. if is_ascii bs then some bs else none;
  base16 = base16;
  isoformat_ascii = date_text_ascii;
  fromisoformat-isoformat = read_hex-date_text;
  dumps_ascii = fields_ascii;
  dumps_nonempty = fields_nonempty;
  loads-dumps = split-fields;
  decode_utf8_ascii = λ bs h. rw h refl;
}

decode_cursor-encode_cursor_example :
    decode_cursor library (encode_cursor library (10, 101)) ≡ ok (10, 101)
decode_cursor-encode_cursor_example = decode_cursor-encode_cursor library (10, 101) refl

-- an object with the date 15 and a number as its id
list_fails_example :
    request
      (list
        (cursor_codec library)
        50
        2
        20
        none
        (some (rstrip_padding (urlsafe_b64encode (codes "x0f")))))
      db
    ≡ (raised failure, db)
unfolding split read_hex is_hex digit_value
list_fails_example =
    list_fails library 50 2 20 db (codes "x0f") (codes "0f") 15
      (record { exists = refl; member = refl }) (λ e. cc) refl refl refl
