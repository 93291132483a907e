-- ===== src/UuidText/Digits.antt =====
-- The digits of `str(uuid)` stand for the number that they were made of.
use Prim.Native.Nat.{◌/◌, ◌%◌, ◌^◌}
use native.Mathlib.Nat.{pow-succ'}
use chatterbox.Prelude.{ℕ, zero, suc, ◌+◌, ◌*◌, ◌≡◌, ◌<◌, ◌∷◌, All, refl, arith, length, ◌∙◌, ap}
use chatterbox.Models.{Text}
use chatterbox.UuidText.{hex_digit, hex_digits, digit_value, IsHexDigit, hex_number}

digit_value-hex_digit : (d : ℕ) → d < 16 → digit_value (hex_digit d) ≡ d
unfolding digit_value hex_digit
digit_value-hex_digit d h = ground arith

pub hex_digits-All :
    (w x : ℕ) (rest : Text) → All IsHexDigit rest → All IsHexDigit (hex_digits w x rest)
unfolding hex_digits
hex_digits-All zero x rest h = h
hex_digits-All (suc w) x rest h =
    hex_digits-All w (x / 16) (hex_digit (x % 16) ∷ rest) ((x % 16, omega arith, refl), h)

pub length-hex_digits : (w x : ℕ) (rest : Text) → length (hex_digits w x rest) ≡ w + length rest
unfolding hex_digits
length-hex_digits zero x rest = omega arith
length-hex_digits (suc w) x rest =
    length-hex_digits w (x / 16) (hex_digit (x % 16) ∷ rest) ∙ omega arith

shifted : (n p x : ℕ) → (n * p + x / 16) * 16 + x % 16 ≡ n * (16 * p) + x
shifted n p x = grind arith

pub hex_number-hex_digits :
    (w x n : ℕ) (rest : Text)
    → x < 16 ^ w
    → hex_number n (hex_digits w x rest) ≡ hex_number (n * 16 ^ w + x) rest
unfolding hex_digits
hex_number-hex_digits zero x n rest h = ap (λ (k : ℕ). hex_number k rest) (omega arith)
hex_number-hex_digits (suc w) x n rest h =
    hex_number-hex_digits w (x / 16) n (hex_digit (x % 16) ∷ rest) (omega (arith, pow-succ' 16 w))
    ∙ ap (λ (k : ℕ). hex_number k rest)
        (rw (digit_value-hex_digit (x % 16) (omega arith), pow-succ' 16 w) (shifted n (16 ^ w) x))
