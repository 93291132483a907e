-- ===== src/Services/Cursor/Base64.antt =====
-- `base64.urlsafe_b64encode` and `urlsafe_b64decode` of Python, which `encode_cursor` and
-- `decode_cursor` call, and `rstrip` of the padding.
pub mod RoundTrip
use Prim.Native.Nat.{◌/◌, ◌%◌}
use chatterbox.Prelude.{
  ℕ, zero, suc, ◌+◌, ◌-◌, ◌*◌, Bool, true, false, ◌&&◌, Option, none, some, List, [], ◌∷◌, ◌++◌,
  length, ltb, leb, ◌==◌, if◌then◌else◌,
}
use chatterbox.Prelude.Every.{all}
use chatterbox.Models.{Text}

abbrev pub is_ascii : Text → Bool
is_ascii = all (λ c. ltb c 128)

-- 'A'..'Z', 'a'..'z', '0'..'9', '-', '_'
unfoldable pub b64_char : ℕ → ℕ
b64_char v =
    if ltb v 26
    then v + 65
    else if ltb v 52
    then v + 71
    else if ltb v 62
    then v - 4
    else if v == 62
    then 45
    else 95

-- The place of a character in the alphabet, where '-' is translated to '+' and '_' to '/' first; 64
-- for a character that is not in it.
unfoldable pub b64_value : ℕ → ℕ
b64_value c =
    if leb 65 c && leb c 90
    then c - 65
    else if leb 97 c && leb c 122
    then c - 71
    else if leb 48 c && leb c 57
    then c + 4
    else if c == 45
    then 62
    else if c == 43
    then 62
    else if c == 95
    then 63
    else if c == 47
    then 63
    else 64

unfoldable pub urlsafe_b64encode : List ℕ → Text
unfolding b64_char
urlsafe_b64encode [] = []
urlsafe_b64encode (a ∷ []) = b64_char (a / 4) ∷ b64_char (a % 4 * 16) ∷ 61 ∷ 61 ∷ []
urlsafe_b64encode (a ∷ b ∷ []) =
    b64_char (a / 4) ∷ b64_char (a % 4 * 16 + b / 16) ∷ b64_char (b % 16 * 4) ∷ 61 ∷ []
urlsafe_b64encode (a ∷ b ∷ c ∷ rest) =
    b64_char (a / 4)
    ∷ b64_char (a % 4 * 16 + b / 16)
    ∷ b64_char (b % 16 * 4 + c / 64)
    ∷ b64_char (c % 64)
    ∷ urlsafe_b64encode rest

abbrev pub is_empty : Text → Bool
is_empty [] = true
is_empty (c ∷ cs) = false

-- `text.rstrip("=")`
unfoldable pub rstrip_padding : Text → Text
rstrip_padding [] = []
rstrip_padding (c ∷ cs) =
    let rest = rstrip_padding cs in if c == 61 && is_empty rest then [] else c ∷ rest

-- how many characters of a quadruple were read
pub data Quad : Type 0 where
  at0 at1 at2 at3 : Quad

abbrev pub onto : ℕ → Option (List ℕ) → Option (List ℕ)
onto b none = none
onto b (some bs) = some (b ∷ bs)

-- `binascii.a2b_base64` without strict mode: characters that are not in the alphabet are left out,
-- enough padding ends the reading, and what is left over of a quadruple is an error. The numbers are
-- the bits left over and the padding read since the last character.
unfoldable pub a2b_base64 : Quad → ℕ → ℕ → Text → Option (List ℕ)
unfolding b64_value
a2b_base64 at0 left pads [] = some []
a2b_base64 at1 left pads [] = none
a2b_base64 at2 left pads [] = none
a2b_base64 at3 left pads [] = none
a2b_base64 at0 left pads (c ∷ cs) =
    let skipped = a2b_base64 at0 left pads cs in
    let read = a2b_base64 at1 (b64_value c) 0 cs in if b64_value c == 64 then skipped else read
a2b_base64 at1 left pads (c ∷ cs) =
    let skipped = a2b_base64 at1 left pads cs in
    let read = onto (left * 4 + b64_value c / 16) (a2b_base64 at2 (b64_value c % 16) 0 cs) in
    if b64_value c == 64 then skipped else read
a2b_base64 at2 left pads (c ∷ cs) =
    let padded = a2b_base64 at2 left (pads + 1) cs in
    let skipped = a2b_base64 at2 left pads cs in
    let read = onto (left * 16 + b64_value c / 4) (a2b_base64 at3 (b64_value c % 4) 0 cs) in
    if c == 61
    then (if leb 2 (pads + 1) then some [] else padded)
    else if b64_value c == 64
    then skipped
    else read
a2b_base64 at3 left pads (c ∷ cs) =
    let skipped = a2b_base64 at3 left pads cs in
    let read = onto (left * 64 + b64_value c) (a2b_base64 at0 0 0 cs) in
    if c == 61 then some [] else if b64_value c == 64 then skipped else read

-- A text that is not ASCII is a ValueError.
pub urlsafe_b64decode : Text → Option (List ℕ)
urlsafe_b64decode t = if is_ascii t then a2b_base64 at0 0 0 t else none

-- `"=" * (-len(cursor) % 4)`
unfoldable pub padding : Text → Text
padding t =
    let r = length t % 4 in
    if r == 0
    then []
    else if r == 1
    then 61 ∷ 61 ∷ 61 ∷ []
    else if r == 2
    then 61 ∷ 61 ∷ []
    else 61 ∷ []
