-- ===== src/Services/Cursor/Base64/RoundTrip.antt =====
-- What was encoded without its padding is decoded.
use Prim.Native.Nat.{◌/◌, ◌%◌}
use chatterbox.Prelude.{
  ℕ, ◌+◌, ◌*◌, ◌<◌, true, false, some, List, [], ◌∷◌, ◌++◌, ltb, ◌==◌, ◌≡◌, refl, arith, All, ◌∙◌,
  ap, sym,
}
use mathlib.Core.Path.{subst}
use chatterbox.Models.{Text}
use chatterbox.Services.Cursor.Base64.{
  is_ascii, b64_char, b64_value, urlsafe_b64encode, rstrip_padding, at0, at1, at2, at3, onto,
  a2b_base64, urlsafe_b64decode, padding,
}

abbrev pub IsByte : ℕ → Type 0
IsByte b = b < 256

b64_value-b64_char : (v : ℕ) → v < 64 → b64_value (b64_char v) ≡ v
unfolding b64_value b64_char
b64_value-b64_char v h = ground arith

b64_char-ne-padding : (v : ℕ) → v < 64 → (b64_char v == 61) ≡ false
unfolding b64_char
b64_char-ne-padding v h = ground arith

b64_char_ascii : (v : ℕ) → v < 64 → ltb (b64_char v) 128 ≡ true
unfolding b64_char
b64_char_ascii v h = ground arith

-- one character of the alphabet
module _ (v : ℕ) (h : v < 64) (left pads : ℕ) (cs : Text) where
  a2b_first : a2b_base64 at0 left pads (b64_char v ∷ cs) ≡ a2b_base64 at1 v 0 cs
  unfolding a2b_base64
  a2b_first = rw (b64_value-b64_char v h) (ground arith)

  a2b_second :
      a2b_base64 at1 left pads (b64_char v ∷ cs)
      ≡ onto (left * 4 + v / 16) (a2b_base64 at2 (v % 16) 0 cs)
  unfolding a2b_base64
  a2b_second = rw (b64_value-b64_char v h) (ground arith)

  a2b_third :
      a2b_base64 at2 left pads (b64_char v ∷ cs)
      ≡ onto (left * 16 + v / 4) (a2b_base64 at3 (v % 4) 0 cs)
  unfolding a2b_base64
  a2b_third = rw (b64_value-b64_char v h, b64_char-ne-padding v h) (ground arith)

  a2b_fourth :
      a2b_base64 at3 left pads (b64_char v ∷ cs) ≡ onto (left * 64 + v) (a2b_base64 at0 0 0 cs)
  unfolding a2b_base64
  a2b_fourth = rw (b64_value-b64_char v h, b64_char-ne-padding v h) (ground arith)

  rstrip_first : rstrip_padding (b64_char v ∷ cs) ≡ b64_char v ∷ rstrip_padding cs
  unfolding rstrip_padding
  rstrip_first = rw (b64_char-ne-padding v h) refl

-- The padding itself.
padded_two : (left pads : ℕ) → a2b_base64 at2 left 0 (61 ∷ 61 ∷ []) ≡ some []
unfolding a2b_base64
padded_two left pads = refl

padded_one : (left : ℕ) → a2b_base64 at3 left 0 (61 ∷ []) ≡ some []
unfolding a2b_base64
padded_one left = refl

a2b_base64-urlsafe_b64encode :
    (bs : List ℕ) → All IsByte bs → a2b_base64 at0 0 0 (urlsafe_b64encode bs) ≡ some bs
unfolding urlsafe_b64encode
a2b_base64-urlsafe_b64encode [] h = unfold a2b_base64 in refl
a2b_base64-urlsafe_b64encode (a ∷ []) h =
    rw
      (
        a2b_first (a / 4) (omega arith) 0 0,
        a2b_second (a % 4 * 16) (omega arith) (a / 4) 0,
        padded_two (a % 4 * 16 % 16) 0,
      )
      (ap (λ (x : ℕ). some (x ∷ [])) (omega arith))
a2b_base64-urlsafe_b64encode (a ∷ b ∷ []) h =
    rw
      (
        a2b_first (a / 4) (omega arith) 0 0,
        a2b_second (a % 4 * 16 + b / 16) (omega arith) (a / 4) 0,
        a2b_third (b % 16 * 4) (omega arith) ((a % 4 * 16 + b / 16) % 16) 0,
        padded_one (b % 16 * 4 % 4),
      )
      (ground arith)
a2b_base64-urlsafe_b64encode (a ∷ b ∷ c ∷ rest) h =
    rw
      (
        a2b_first (a / 4) (omega arith) 0 0,
        a2b_second (a % 4 * 16 + b / 16) (omega arith) (a / 4) 0,
        a2b_third (b % 16 * 4 + c / 64) (omega arith) ((a % 4 * 16 + b / 16) % 16) 0,
        a2b_fourth (c % 64) (omega arith) ((b % 16 * 4 + c / 64) % 4) 0,
        a2b_base64-urlsafe_b64encode rest h.1.1.1,
      )
      (ground arith)

urlsafe_b64encode_ascii : (bs : List ℕ) → All IsByte bs → is_ascii (urlsafe_b64encode bs) ≡ true
unfolding urlsafe_b64encode
urlsafe_b64encode_ascii [] h = refl
urlsafe_b64encode_ascii (a ∷ []) h =
    rw (b64_char_ascii (a / 4) (omega arith), b64_char_ascii (a % 4 * 16) (omega arith)) refl
urlsafe_b64encode_ascii (a ∷ b ∷ []) h =
    rw
      (
        b64_char_ascii (a / 4) (omega arith),
        b64_char_ascii (a % 4 * 16 + b / 16) (omega arith),
        b64_char_ascii (b % 16 * 4) (omega arith),
      )
      refl
urlsafe_b64encode_ascii (a ∷ b ∷ c ∷ rest) h =
    rw
      (
        b64_char_ascii (a / 4) (omega arith),
        b64_char_ascii (a % 4 * 16 + b / 16) (omega arith),
        b64_char_ascii (b % 16 * 4 + c / 64) (omega arith),
        b64_char_ascii (c % 64) (omega arith),
      )
      (urlsafe_b64encode_ascii rest h.1.1.1)

padding_four : (w x y z : ℕ) (t : Text) → padding (w ∷ x ∷ y ∷ z ∷ t) ≡ padding t
unfolding padding
padding_four w x y z t = ground arith

-- What `rstrip` took away is what `decode_cursor` puts back.
padding-rstrip_padding :
    (bs : List ℕ)
    → All IsByte bs
    → rstrip_padding (urlsafe_b64encode bs) ++ padding (rstrip_padding (urlsafe_b64encode bs))
      ≡ urlsafe_b64encode bs
unfolding urlsafe_b64encode
padding-rstrip_padding [] h = unfold padding rstrip_padding in refl
padding-rstrip_padding (a ∷ []) h =
    rw (rstrip_first (a / 4) (omega arith) 0 0, rstrip_first (a % 4 * 16) (omega arith) 0 0)
      (unfold padding rstrip_padding in refl)
padding-rstrip_padding (a ∷ b ∷ []) h =
    rw
      (
        rstrip_first (a / 4) (omega arith) 0 0,
        rstrip_first (a % 4 * 16 + b / 16) (omega arith) 0 0,
        rstrip_first (b % 16 * 4) (omega arith) 0 0,
      )
      (unfold padding rstrip_padding in refl)
padding-rstrip_padding (a ∷ b ∷ c ∷ rest) h =
    rw
      (
        rstrip_first (a / 4) (omega arith) 0 0,
        rstrip_first (a % 4 * 16 + b / 16) (omega arith) 0 0,
        rstrip_first (b % 16 * 4 + c / 64) (omega arith) 0 0,
        rstrip_first (c % 64) (omega arith) 0 0,
        padding_four _ _ _ _ (rstrip_padding (urlsafe_b64encode rest)),
        padding-rstrip_padding rest h.1.1.1,
      )
      refl

-- Bytes that were encoded, without their padding, are decoded once it is put back.
pub urlsafe_b64decode-urlsafe_b64encode :
    (bs : List ℕ)
    → All IsByte bs
    → urlsafe_b64decode
        (rstrip_padding (urlsafe_b64encode bs) ++ padding (rstrip_padding (urlsafe_b64encode bs)))
      ≡ some bs
unfolding urlsafe_b64decode
urlsafe_b64decode-urlsafe_b64encode bs h =
    rw (padding-rstrip_padding bs h, urlsafe_b64encode_ascii bs h)
      (a2b_base64-urlsafe_b64encode bs h)

-- Only nothing is encoded as nothing.
pub encoded_none :
    (bs : List ℕ) → All IsByte bs → rstrip_padding (urlsafe_b64encode bs) ≡ [] → bs ≡ []
encoded_none bs h e = some_inj (
    sym (
      subst (λ (t : Text). urlsafe_b64decode (t ++ padding t) ≡ some bs) e
        (urlsafe_b64decode-urlsafe_b64encode bs h))
    ∙ nothing)
  where
    nothing : urlsafe_b64decode ([] ++ padding []) ≡ some []
    nothing = unfold urlsafe_b64decode padding a2b_base64 in refl

    some_inj : {xs ys : List ℕ} → some xs ≡ some ys → xs ≡ ys
    some_inj p = cc
