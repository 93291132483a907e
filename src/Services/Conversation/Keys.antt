-- ===== src/Services/Conversation/Keys.antt =====
-- A direct key tells the two users whom a conversation is for, and fits its column.
use Prim.Native.Nat.{◌^◌}
use chatterbox.Prelude.{
  ◌<◌, ◌∷◌, ◌++◌, ◌≡◌, refl, inl, inr, take, drop, length, ◌⊎◌, ◌↔◌, ap, sym, ◌∙◌, text_lt,
  Bool-cases,
}
use chatterbox.Models.{Uuid, Text}
use chatterbox.UuidText.{str, hex_digits}
use chatterbox.UuidText.RoundTrip.{str_inj}
use chatterbox.Services.Conversation.{direct_key}
use chatterbox.Services.Conversation.Direct.{direct_key_comm}

joined : Uuid → Uuid → Text
joined a b = str a ++ (58 ∷ str b)

take-joined : (a b : Uuid) → take 36 (joined a b) ≡ str a
unfolding joined str hex_digits
take-joined a b = refl

drop-joined : (a b : Uuid) → drop 37 (joined a b) ≡ str b
unfolding joined str hex_digits
drop-joined a b = refl

length-joined : (a b : Uuid) → length (joined a b) ≡ 73
unfolding joined str hex_digits
length-joined a b = refl

direct_key_cases : (a b : Uuid) → (direct_key a b ≡ joined a b) ⊎ (direct_key a b ≡ joined b a)
unfolding direct_key joined
direct_key_cases a b = elim (Bool-cases (text_lt (str b) (str a))) [
  | inl e ↦ inr (rw e refl)
  | inr e ↦ inl (rw e refl)
]

-- `String(73)` of `Conversation.direct_key` has room for every key.
pub length-direct_key : (a b : Uuid) → length (direct_key a b) ≡ 73
length-direct_key a b = elim (direct_key_cases a b) [
  | inl e ↦ rw e (length-joined a b)
  | inr e ↦ rw e (length-joined b a)
]

joined_inj :
    (a b c d : Uuid)
    → a < 2 ^ 128
    → b < 2 ^ 128
    → c < 2 ^ 128
    → d < 2 ^ 128
    → joined a b ≡ joined c d
    → (a ≡ c) × (b ≡ d)
joined_inj a b c d ha hb hc hd e = (
  str_inj a c ha hc (sym (take-joined a b) ∙ ap (take 36) e ∙ take-joined c d),
  str_inj b d hb hd (sym (drop-joined a b) ∙ ap (drop 37) e ∙ drop-joined c d),
)

-- Two pairs of users have one direct key exactly when they are the same two users, in either order;
-- an id has 128 bits.
pub direct_key_iff :
    (a b c d : Uuid)
    → a < 2 ^ 128
    → b < 2 ^ 128
    → c < 2 ^ 128
    → d < 2 ^ 128
    → (direct_key a b ≡ direct_key c d) ↔ (((a ≡ c) × (b ≡ d)) ⊎ ((a ≡ d) × (b ≡ c)))
direct_key_iff a b c d ha hb hc hd = (
  λ e. elim (direct_key_cases a b) [
    | inl p ↦ (elim (direct_key_cases c d) [
      | inl q ↦ inl (joined_inj a b c d ha hb hc hd (sym p ∙ e ∙ q))
      | inr q ↦ inr (joined_inj a b d c ha hb hd hc (sym p ∙ e ∙ q))
    ])
    | inr p ↦ (elim (direct_key_cases c d) [
      | inl q ↦ (let (x, y) = joined_inj b a c d hb ha hc hd (sym p ∙ e ∙ q) in inr (y, x))
      | inr q ↦ (let (x, y) = joined_inj b a d c hb ha hd hc (sym p ∙ e ∙ q) in inl (y, x))
    ])
  ],
  λ s. elim s [ inl (p, q) ↦ rw (p, q) refl | inr (p, q) ↦ rw (p, q) (direct_key_comm d c) ],
)
