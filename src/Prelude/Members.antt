-- ===== src/Prelude/Members.antt =====
-- Membership of identifiers in filtered and deduplicated lists.
use mathlib.Core.Path.{◌≡◌, refl}
use mathlib.Core.Logic.{inl, inr}
use mathlib.Core.List.{List, [], ◌∷◌}
use mathlib.Core.Bool.{Bool, true, ◌&&◌, not}
use Prim.Native.Nat.{ℕ}
use native.Mathlib.Omega.{arith}
use chatterbox.Prelude.Tests.{◌==◌, ==_iff, Bool-cases}
use chatterbox.Prelude.Lists.{filter, mem, unique, from_keys, All}

pub mem-filter : (p : ℕ → Bool) (j : ℕ) (xs : List ℕ) → mem j (filter p xs) ≡ (mem j xs && p j)
mem-filter p j [] = refl
mem-filter p j (x ∷ xs) = elim (Bool-cases (x == j)) [
  | inl e ↦ (let same : x ≡ j = (==_iff x j).0 e in rw same (ground (arith, mem-filter p j xs)))
  | inr e ↦ ground (arith, e, mem-filter p j xs)
]

pub filter_cong {ℓ} :
    {A : Type ℓ} (p q : A → Bool) (xs : List A)
    → All (λ x. p x ≡ q x) xs
    → filter p xs ≡ filter q xs
filter_cong p q [] h = refl
filter_cong p q (x ∷ xs) h = ground (arith, h.0, filter_cong p q xs h.1)

pub filter_nested {ℓ} :
    {A : Type ℓ} (p q : A → Bool) (xs : List A)
    → filter q (filter p xs) ≡ filter (λ x. p x && q x) xs
filter_nested p q [] = refl
filter_nested p q (x ∷ xs) = ground (arith, filter_nested p q xs)

mem_grow :
    (x : ℕ) (xs ys : List ℕ) → All (λ j. mem j xs ≡ true) ys → All (λ j. mem j (x ∷ xs) ≡ true) ys
mem_grow x xs [] h = tt
mem_grow x xs (y ∷ ys) h = (ground (arith, h.0), mem_grow x xs ys h.1)

-- the elements of a list are members of it
pub mem-All : (xs : List ℕ) → All (λ j. mem j xs ≡ true) xs
mem-All [] = tt
mem-All (x ∷ xs) = (ground arith, mem_grow x xs xs (mem-All xs))

-- `dict.fromkeys` keeps exactly the members that were not seen, ...
pub mem-from_keys :
    (j : ℕ) (seen xs : List ℕ) → mem j (from_keys seen xs) ≡ (mem j xs && not (mem j seen))
mem-from_keys j seen [] = refl
mem-from_keys j seen (x ∷ xs) = elim (Bool-cases (x == j)) [
  | inl e ↦
      (let same : x ≡ j = (==_iff x j).0 e in
        rw same (ground (arith, mem-from_keys j (j ∷ seen) xs, mem-from_keys j seen xs)))
  | inr e ↦ ground (arith, e, mem-from_keys j (x ∷ seen) xs, mem-from_keys j seen xs)
]

-- ... each of them once.
pub unique-from_keys : (seen xs : List ℕ) → unique (from_keys seen xs) ≡ true
unique-from_keys seen [] = refl
unique-from_keys seen (x ∷ xs) =
    ground (
      arith,
      mem-from_keys x (x ∷ seen) xs,
      unique-from_keys (x ∷ seen) xs,
      unique-from_keys seen xs,
    )
