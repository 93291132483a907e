-- ===== src/UuidText.antt =====
-- Python's `uuid.UUID`. `str(uuid)`: 32 hexadecimal digits of the 128-bit number, most significant first, in groups of
-- 8, 4, 4, 4 and 12 joined by dashes.
pub mod Digits
pub mod RoundTrip
use Prim.Native.Nat.{◌/◌, ◌%◌, ◌^◌}
use chatterbox.Prelude.{
  ℕ, zero, suc, ◌+◌, ◌-◌, ◌*◌, ◌≡◌, ◌≢◌, ◌<◌, Bool, not, ◌||◌, Option, none, some, List, [], ◌∷◌,
  ◌++◌, take, drop, reverse, length, filter, All, leb, ltb, ◌==◌, codes, starts_with, if◌then◌else◌,
}
use chatterbox.Models.{Uuid, Text}

-- '0'..'9', 'a'..'f'
unfoldable pub hex_digit : ℕ → ℕ
hex_digit d = if ltb d 10 then 48 + d else 87 + d

-- the lowest `w` hexadecimal digits, most significant first, in front of a text
unfoldable pub hex_digits : ℕ → ℕ → Text → Text
unfolding hex_digit
hex_digits zero x rest = rest
hex_digits (suc w) x rest = hex_digits w (x / 16) (hex_digit (x % 16) ∷ rest)

abbrev pub with_dashes : Text → Text
with_dashes t =
    take 8 t
    ++ (45 ∷ take 4 (drop 8 t)
        ++ (45 ∷ take 4 (drop 12 t) ++ (45 ∷ take 4 (drop 16 t) ++ (45 ∷ drop 20 t))))

unfoldable pub str : Uuid → Text
unfolding hex_digits
str u = with_dashes (hex_digits 32 u [])

-- the value of a digit, '0'..'9' or 'a'..'f'
unfoldable pub digit_value : ℕ → ℕ
digit_value c = if ltb c 58 then c - 48 else c - 87

abbrev pub IsHexDigit : ℕ → Type 0
IsHexDigit c = (d : ℕ) × (d < 16) × (c ≡ hex_digit d)

-- the number that digits stand for, behind one that stands in front
abbrev pub hex_number : ℕ → Text → ℕ
hex_number n [] = n
hex_number n (c ∷ cs) = hex_number (n * 16 + digit_value c) cs

-- `int(text, 16)`; none is a ValueError or a negative number
pub record Base16 : Type 0 where
  pub int_16 : Text → Option ℕ
  pub int_16_digits : (cs : Text) → cs ≢ [] → All IsHexDigit cs → int_16 cs ≡ some (hex_number 0 cs)

-- `text.replace(needle, "")`; the number is how many characters of an occurrence are still to skip
unfoldable pub removed : Text → ℕ → Text → Text
removed needle n [] = []
removed needle (suc n) (c ∷ cs) = removed needle n cs
removed needle zero (c ∷ cs) =
    let found = removed needle (length needle - 1) cs in
    let kept = c ∷ removed needle 0 cs in if starts_with needle (c ∷ cs) then found else kept

abbrev pub is_brace : ℕ → Bool
is_brace c = (c == 123) || (c == 125)

unfoldable pub lstrip_braces : Text → Text
lstrip_braces [] = []
lstrip_braces (c ∷ cs) = let rest = lstrip_braces cs in if is_brace c then rest else c ∷ cs

abbrev pub in_range : Option ℕ → Option Uuid
in_range none = none
in_range (some n) = if ltb n (2 ^ 128) then some n else none

-- `UUID(text)`; none is a ValueError
unfoldable pub parse : Base16 → Text → Option Uuid
unfolding removed lstrip_braces
parse base t =
    let bare = removed (codes "uuid:") 0 (removed (codes "urn:") 0 t) in
    let hex =
      filter (λ c. not (c == 45)) (reverse (lstrip_braces (reverse (lstrip_braces bare)))) in
    if length hex == 32 then in_range (base.int_16 hex) else none
