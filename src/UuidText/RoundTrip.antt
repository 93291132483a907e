-- ===== src/UuidText/RoundTrip.antt =====
-- `UUID(str(uuid))` is the UUID, and so two UUIDs with one text are the same.
use mathlib.Core.List.{reverse-reverse}
use Prim.Native.Nat.{◌^◌}
use chatterbox.Prelude.{
  ℕ, ◌≡◌, ◌≢◌, ◌<◌, Bool, true, not, ◌&&◌, some, [], ◌∷◌, ◌++◌, take, drop, reverse, length, filter,
  All, ◌==◌, codes, refl, arith, ap, ◌∙◌, sym,
}
use chatterbox.Prelude.Every.{
  all, all-append, all-take, all-drop, all-reverse, filter-all, filter-append, all-of-All,
}
use chatterbox.Models.{Uuid, Text}
use chatterbox.UuidText.{
  hex_digit, hex_digits, with_dashes, str, IsHexDigit, hex_number, Base16, removed, is_brace,
  lstrip_braces, parse,
}
use chatterbox.UuidText.Digits.{hex_digits-All, length-hex_digits, hex_number-hex_digits}

-- neither 'u' nor a brace, and not a dash
abbrev ordinary : ℕ → Bool
ordinary c = not (c == 117) && not (is_brace c)

abbrev undashed : ℕ → Bool
undashed c = not (c == 45)

IsHexDigit-ordinary : (c : ℕ) → IsHexDigit c → ordinary c ≡ true
unfolding hex_digit
IsHexDigit-ordinary c (d, h, e) = rw e (ground arith)

IsHexDigit-undashed : (c : ℕ) → IsHexDigit c → undashed c ≡ true
unfolding hex_digit
IsHexDigit-undashed c (d, h, e) = rw e (ground arith)

-- a text without 'u' has no occurrence of what starts with one
removed_none : (needle t : Text) → all ordinary t ≡ true → removed (117 ∷ needle) 0 t ≡ t
unfolding removed
removed_none needle [] e = refl
removed_none needle (c ∷ cs) e = ground (arith, removed_none needle cs)

lstrip_braces_none : (t : Text) → all ordinary t ≡ true → lstrip_braces t ≡ t
unfolding lstrip_braces
lstrip_braces_none [] e = refl
lstrip_braces_none (c ∷ cs) e = ground arith

-- a piece of a text, and a dash
module _ (t : Text) where
  all-with_dashes : (p : ℕ → Bool) → p 45 ≡ true → all p t ≡ true → all p (with_dashes t) ≡ true
  all-with_dashes p dash e =
      let piece = λ (n m : ℕ). all-take p n (drop m t) (all-drop p m t e) in
      let join = λ (xs ys : Text) (f : all p xs ≡ true) (g : all p ys ≡ true).
        all-append p xs (45 ∷ ys) f (rw dash g) in
      join (take 8 t) _ (all-take p 8 t e) (
        join (take 4 (drop 8 t)) _ (piece 4 8) (
          join (take 4 (drop 12 t)) _ (piece 4 12)
            (join (take 4 (drop 16 t)) _ (piece 4 16) (all-drop p 20 t e))))

  filter-with_dashes :
      all undashed t ≡ true
      → filter undashed (with_dashes t)
        ≡ take 8 t
          ++ (take 4 (drop 8 t) ++ (take 4 (drop 12 t) ++ (take 4 (drop 16 t) ++ drop 20 t)))
  filter-with_dashes e =
      let piece = λ (n m : ℕ).
        filter-all undashed (take n (drop m t))
          (all-take undashed n (drop m t) (all-drop undashed m t e)) in
      rw
        (
          filter-append undashed (take 8 t),
          filter-append undashed (take 4 (drop 8 t)),
          filter-append undashed (take 4 (drop 12 t)),
          filter-append undashed (take 4 (drop 16 t)),
          filter-all undashed (take 8 t) (all-take undashed 8 t e),
          piece 4 8,
          piece 4 12,
          piece 4 16,
          filter-all undashed (drop 20 t) (all-drop undashed 20 t e),
        )
        refl

hex : Uuid → Text
hex u = hex_digits 32 u []

hex-All : (u : Uuid) → All IsHexDigit (hex u)
unfolding hex
hex-All u = hex_digits-All 32 u [] tt

regrouped :
    (u : Uuid)
    → take 8 (hex u)
        ++ (take 4 (drop 8 (hex u))
            ++ (take 4 (drop 12 (hex u)) ++ (take 4 (drop 16 (hex u)) ++ drop 20 (hex u))))
      ≡ hex u
unfolding hex hex_digits
regrouped u = refl

undashed-str : (u : Uuid) → filter undashed (str u) ≡ hex u
unfolding str hex
undashed-str u =
    filter-with_dashes (hex_digits 32 u [])
      (all-of-All IsHexDigit undashed (hex_digits 32 u []) IsHexDigit-undashed (hex-All u))
    ∙ unfold hex in regrouped u

-- what holds of the digits and of the dash holds of the text
pub all-str :
    (p : ℕ → Bool) (u : Uuid)
    → p 45 ≡ true
    → ((c : ℕ) → IsHexDigit c → p c ≡ true)
    → all p (str u) ≡ true
unfolding str
all-str p u dash digits =
    all-with_dashes (hex_digits 32 u []) p dash
      (unfold hex in all-of-All IsHexDigit p (hex_digits 32 u []) digits (hex-All u))

hex-nonempty : (u : Uuid) → hex u ≢ []
unfolding hex hex_digits
hex-nonempty u e = cc

hex_number-hex : (u : Uuid) → u < 2 ^ 128 → hex_number 0 (hex u) ≡ u
unfolding hex
hex_number-hex u h = hex_number-hex_digits 32 u 0 [] h ∙ omega arith

length-hex : (u : Uuid) → length (hex u) ≡ 32
unfolding hex
length-hex u = length-hex_digits 32 u []

-- Two UUIDs of 128 bits with one text are the same.
pub str_inj : (u v : Uuid) → u < 2 ^ 128 → v < 2 ^ 128 → str u ≡ str v → u ≡ v
str_inj u v h k e =
    sym (hex_number-hex u h)
    ∙ ap (hex_number 0) (sym (undashed-str u) ∙ ap (filter undashed) e ∙ undashed-str v)
    ∙ hex_number-hex v k

-- `UUID(str(uuid))` is the UUID, if its number has 128 bits.
pub parse-str : (base : Base16) (u : Uuid) → u < 2 ^ 128 → parse base (str u) ≡ some u
unfolding parse
parse-str base u h =
    let o = all-str ordinary u refl IsHexDigit-ordinary in
    let back = all-reverse ordinary (str u) o in
    rw
      (
        removed_none (codes "rn:") (str u) o,
        removed_none (codes "uid:") (str u) o,
        lstrip_braces_none (str u) o,
        lstrip_braces_none (reverse (str u)) back,
        reverse-reverse (str u),
        undashed-str u,
        base.int_16_digits (hex u) (hex-nonempty u) (hex-All u),
        hex_number-hex u h,
      )
      (ground (arith, length-hex u))
