-- ===== src/Prelude/Prefixes.antt =====
-- Prefixes of lists: `records[:limit]` of a query with `LIMIT limit + 1`.
use mathlib.Core.Path.{◌≡◌, refl, ap, subst}
use mathlib.Core.List.{List, [], ◌∷◌, ◌++◌}
use mathlib.Core.Option.{some}
use Prim.Native.Nat.{ℕ, zero, suc, ◌≤◌, ◌<◌, ◌-◌}
use native.Mathlib.Omega.{arith}
use chatterbox.Prelude.Tests.{ltb}
use chatterbox.Prelude.Lists.{length, take, drop, get_last?, All}

module _ {ℓ} {A : Type ℓ} where
  pub take-take-suc : (n : ℕ) (xs : List A) → take n (take (suc n) xs) ≡ take n xs
  take-take-suc zero xs = refl
  take-take-suc (suc n) [] = refl
  take-take-suc (suc n) (x ∷ xs) = ap (◌∷◌ x) (take-take-suc n xs)

  -- one row more than the limit shows whether there are more rows
  pub ltb-length-take-suc :
      (n : ℕ) (xs : List A) → ltb n (length (take (suc n) xs)) ≡ ltb n (length xs)
  ltb-length-take-suc zero [] = refl
  ltb-length-take-suc zero (x ∷ xs) = ground arith
  ltb-length-take-suc (suc n) [] = refl
  ltb-length-take-suc (suc n) (x ∷ xs) = ground (arith, ltb-length-take-suc n xs)

  pub take_all : (n : ℕ) (xs : List A) → length xs ≤ n → take n xs ≡ xs
  take_all zero [] h = refl
  take_all zero (x ∷ xs) h = absurd (omega arith)
  take_all (suc n) [] h = refl
  take_all (suc n) (x ∷ xs) h = ap (◌∷◌ x) (take_all n xs (omega arith))

  pub take-append-drop : (n : ℕ) (xs : List A) → take n xs ++ drop n xs ≡ xs
  take-append-drop zero xs = refl
  take-append-drop (suc n) [] = refl
  take-append-drop (suc n) (x ∷ xs) = ap (◌∷◌ x) (take-append-drop n xs)

  pub take-append : (xs ys : List A) → take (length xs) (xs ++ ys) ≡ xs
  take-append [] ys = refl
  take-append (x ∷ xs) ys = ap (◌∷◌ x) (take-append xs ys)

  pub drop-append : (xs ys : List A) → drop (length xs) (xs ++ ys) ≡ ys
  drop-append [] ys = refl
  drop-append (x ∷ xs) ys = drop-append xs ys

  pub drop-length : (xs : List A) → drop (length xs) xs ≡ []
  drop-length [] = refl
  drop-length (x ∷ xs) = drop-length xs

  pub length-drop : (n : ℕ) (xs : List A) → length (drop n xs) ≡ length xs - n
  length-drop zero xs = omega arith
  length-drop (suc n) [] = omega arith
  length-drop (suc n) (x ∷ xs) = omega (arith, length-drop n xs)

  -- a prefix that is not empty has a last element
  pub get_last?-take :
      (n : ℕ) (xs : List A) → 0 < n → 0 < length xs → (x : A) × (get_last? (take n xs) ≡ some x)
  get_last?-take zero xs h k = absurd (omega arith)
  get_last?-take (suc n) [] h k = absurd (omega arith)
  get_last?-take (suc zero) (x ∷ xs) h k = (x, refl)
  get_last?-take (suc (suc n)) (x ∷ []) h k = (x, refl)
  get_last?-take (suc (suc n)) (x ∷ y ∷ xs) h k =
      get_last?-take (suc n) (y ∷ xs) (omega arith) (omega arith)

module _ {ℓ κ} {A : Type ℓ} (P : A → Type κ) where
  pub All-drop : (n : ℕ) (xs : List A) → All P xs → All P (drop n xs)
  All-drop zero xs h = h
  All-drop (suc n) [] h = tt
  All-drop (suc n) (x ∷ xs) h = All-drop n xs h.1

  All-get_last? : (xs : List A) (x : A) → All P xs → get_last? xs ≡ some x → P x
  All-get_last? [] x h e = absurd (cc)
  All-get_last? (y ∷ []) x h e = subst P (cc) h.0
  All-get_last? (y ∷ z ∷ xs) x h e = All-get_last? (z ∷ xs) x h.1 e

  All-take : (n : ℕ) (xs : List A) → All P xs → All P (take n xs)
  All-take zero xs h = tt
  All-take (suc n) [] h = tt
  All-take (suc n) (x ∷ xs) h = (h.0, All-take n xs h.1)

  -- what holds of all rows holds of the last one of a prefix
  pub All-last : (n : ℕ) (xs : List A) (x : A) → All P xs → get_last? (take n xs) ≡ some x → P x
  All-last n xs x h e = All-get_last? (take n xs) x (All-take n xs h) e
