-- ===== src/Prelude/Every.antt =====
-- `all` and `any` on rows that a test selects, changes or keeps.
use Prim.Native.Nat.{ℕ, zero, suc}
use mathlib.Core.Path.{◌≡◌, refl}
use mathlib.Core.Logic.{inl, inr}
use mathlib.Core.List.{List, [], ◌∷◌, ◌++◌, reverse, reverse-cons}
use mathlib.Core.Bool.{Bool, true, false, not, ◌&&◌, ◌||◌}
use native.Mathlib.Omega.{arith}
use chatterbox.Prelude.Tests.{Bool-cases}
use chatterbox.Prelude.Lists.{any, filter, update_where, take, drop, All}

-- `all(p(x) for x in xs)`
abbrev pub all {ℓ} : {A : Type ℓ} → (A → Bool) → List A → Bool
all p [] = true
all p (x ∷ xs) = p x && all p xs

module _ {ℓ} {A : Type ℓ} where
  pub all_mono :
      (p q : A → Bool) (xs : List A)
      → ((x : A) → p x ≡ true → q x ≡ true)
      → all p xs ≡ true
      → all q xs ≡ true
  all_mono p q [] h e = refl
  all_mono p q (x ∷ xs) h e = ground (arith, h x, all_mono p q xs h)

  -- the same with a second test at hand
  pub all_mono2 :
      (p g q : A → Bool) (xs : List A)
      → ((x : A) → p x ≡ true → g x ≡ true → q x ≡ true)
      → all p xs ≡ true
      → all g xs ≡ true
      → all q xs ≡ true
  all_mono2 p g q [] h e f = refl
  all_mono2 p g q (x ∷ xs) h e f = ground (arith, h x, all_mono2 p g q xs h)

  pub all-update_where :
      (p g q : A → Bool) (f : A → A) (xs : List A)
      → ((x : A) → p x ≡ true → g x ≡ true → q (f x) ≡ true)
      → ((x : A) → p x ≡ false → g x ≡ true → q x ≡ true)
      → all g xs ≡ true
      → all q (update_where p f xs) ≡ true
  all-update_where p g q f [] h k e = refl
  all-update_where p g q f (x ∷ xs) h k e = elim (Bool-cases (p x)) [
    | inl y ↦ rw y (ground (arith, h x y, all-update_where p g q f xs h k))
    | inr n ↦ rw n (ground (arith, k x n, all-update_where p g q f xs h k))
  ]

  pub all-filter :
      (p g q : A → Bool) (xs : List A)
      → ((x : A) → p x ≡ true → g x ≡ true → q x ≡ true)
      → all g xs ≡ true
      → all q (filter p xs) ≡ true
  all-filter p g q [] h e = refl
  all-filter p g q (x ∷ xs) h e = elim (Bool-cases (p x)) [
    | inl y ↦ rw y (ground (arith, h x y, all-filter p g q xs h))
    | inr n ↦ rw n (ground (arith, all-filter p g q xs h))
  ]

  pub all-and :
      (p q : A → Bool) (xs : List A)
      → all p xs ≡ true
      → all q xs ≡ true
      → all (λ x. p x && q x) xs ≡ true
  all-and p q [] e f = refl
  all-and p q (x ∷ xs) e f = ground (arith, all-and p q xs)

  pub any_mono :
      (p q : A → Bool) (xs : List A)
      → ((x : A) → p x ≡ true → q x ≡ true)
      → any p xs ≡ true
      → any q xs ≡ true
  any_mono p q [] h e = e
  any_mono p q (x ∷ xs) h e = ground (arith, h x, any_mono p q xs h)

  pub any-update_where :
      (p q q' : A → Bool) (f : A → A) (xs : List A)
      → ((x : A) → p x ≡ true → q x ≡ true → q' (f x) ≡ true)
      → ((x : A) → p x ≡ false → q x ≡ true → q' x ≡ true)
      → any q xs ≡ true
      → any q' (update_where p f xs) ≡ true
  any-update_where p q q' f [] h k e = e
  any-update_where p q q' f (x ∷ xs) h k e = elim (Bool-cases (p x)) [
    | inl y ↦ rw y (ground (arith, h x y, any-update_where p q q' f xs h k))
    | inr n ↦ rw n (ground (arith, k x n, any-update_where p q q' f xs h k))
  ]

  pub any-filter :
      (p q : A → Bool) (xs : List A)
      → ((x : A) → q x ≡ true → p x ≡ true)
      → any q xs ≡ true
      → any q (filter p xs) ≡ true
  any-filter p q [] h e = e
  any-filter p q (x ∷ xs) h e = elim (Bool-cases (p x)) [
    | inl y ↦ rw y (ground (arith, any-filter p q xs h))
    | inr n ↦ rw n (ground (arith, h x, any-filter p q xs h))
  ]

  pub all-append :
      (p : A → Bool) (xs ys : List A) → all p xs ≡ true → all p ys ≡ true → all p (xs ++ ys) ≡ true
  all-append p [] ys e f = f
  all-append p (x ∷ xs) ys e f = ground (arith, all-append p xs ys)

  pub any-append : (p : A → Bool) (xs ys : List A) → any p xs ≡ true → any p (xs ++ ys) ≡ true
  any-append p [] ys e = cc
  any-append p (x ∷ xs) ys e = ground (arith, any-append p xs ys)

  pub all-not-any : (p : A → Bool) (xs : List A) → any p xs ≡ false → all (λ x. not (p x)) xs ≡ true
  all-not-any p [] e = refl
  all-not-any p (x ∷ xs) e = ground (arith, all-not-any p xs)

  pub any-all-not : (p : A → Bool) (xs : List A) → all (λ x. not (p x)) xs ≡ true → any p xs ≡ false
  any-all-not p [] e = refl
  any-all-not p (x ∷ xs) e = ground (arith, any-all-not p xs)

  pub all_none :
      (p g : A → Bool) (xs : List A)
      → any p xs ≡ false
      → ((x : A) → p x ≡ false → g x ≡ true)
      → all g xs ≡ true
  all_none p g [] e h = refl
  all_none p g (x ∷ xs) e h = ground (arith, h x, all_none p g xs)

  -- what no row passes changes none, and drops none
  pub update_where_none :
      (p : A → Bool) (f : A → A) (xs : List A) → any p xs ≡ false → update_where p f xs ≡ xs
  update_where_none p f [] e = refl
  update_where_none p f (x ∷ xs) e = ground (arith, update_where_none p f xs)

  pub filter_none :
      (p : A → Bool) (xs : List A) → any p xs ≡ false → filter (λ x. not (p x)) xs ≡ xs
  filter_none p [] e = refl
  filter_none p (x ∷ xs) e = ground (arith, filter_none p xs)

  pub any-or_false :
      (p q : A → Bool) (xs : List A) → any (λ x. p x || q x) xs ≡ false → any p xs ≡ false
  any-or_false p q [] e = refl
  any-or_false p q (x ∷ xs) e = ground (arith, any-or_false p q xs)

  pub any-and_false :
      (p q : A → Bool) (xs : List A) → any p xs ≡ false → any (λ x. p x && q x) xs ≡ false
  any-and_false p q [] e = refl
  any-and_false p q (x ∷ xs) e = ground (arith, any-and_false p q xs)

  pub any-last : (p : A → Bool) (xs : List A) (x : A) → p x ≡ true → any p (xs ++ x ∷ []) ≡ true
  any-last p [] x e = ground arith
  any-last p (y ∷ xs) x e = ground (arith, any-last p xs x e)

  pub filter-last :
      (p : A → Bool) (xs : List A) (x : A)
      → any p xs ≡ false
      → p x ≡ true
      → filter (λ y. not (p y)) (xs ++ x ∷ []) ≡ xs
  filter-last p [] x e h = ground arith
  filter-last p (y ∷ xs) x e h = ground (arith, filter-last p xs x)

  -- a change that is changed back
  pub update_where-update_where :
      (p g : A → Bool) (f h : A → A) (xs : List A)
      → ((x : A) → p x ≡ true → g x ≡ true → p (f x) ≡ true)
      → ((x : A) → p x ≡ true → g x ≡ true → h (f x) ≡ x)
      → all g xs ≡ true
      → update_where p h (update_where p f xs) ≡ xs
  update_where-update_where p g f h [] k l e = refl
  update_where-update_where p g f h (x ∷ xs) k l e = elim (Bool-cases (p x)) [
    | inl y ↦ ground (arith, k x y, l x y, update_where-update_where p g f h xs k l)
    | inr n ↦ ground (arith, update_where-update_where p g f h xs k l)
  ]

  pub update_where-append :
      (p : A → Bool) (f : A → A) (xs ys : List A)
      → any p ys ≡ false
      → update_where p f (xs ++ ys) ≡ update_where p f xs ++ ys
  update_where-append p f [] ys e = update_where_none p f ys e
  update_where-append p f (x ∷ xs) ys e = ground (arith, update_where-append p f xs ys e)

  pub any-append_eq : (p : A → Bool) (xs ys : List A) → any p (xs ++ ys) ≡ (any p xs || any p ys)
  any-append_eq p [] ys = refl
  any-append_eq p (x ∷ xs) ys = ground (arith, any-append_eq p xs ys)

  pub all-append_inv :
      (p : A → Bool) (xs ys : List A)
      → all p (xs ++ ys) ≡ true
      → (all p xs ≡ true) × (all p ys ≡ true)
  all-append_inv p [] ys e = (refl, e)
  all-append_inv p (x ∷ xs) ys e = ground (arith, all-append_inv p xs ys)

  pub all-take : (p : A → Bool) (n : ℕ) (xs : List A) → all p xs ≡ true → all p (take n xs) ≡ true
  all-take p zero xs e = refl
  all-take p (suc n) [] e = refl
  all-take p (suc n) (x ∷ xs) e = ground (arith, all-take p n xs)

  pub all-drop : (p : A → Bool) (n : ℕ) (xs : List A) → all p xs ≡ true → all p (drop n xs) ≡ true
  all-drop p zero xs e = e
  all-drop p (suc n) [] e = refl
  all-drop p (suc n) (x ∷ xs) e = all-drop p n xs (ground arith)

  pub all-reverse : (p : A → Bool) (xs : List A) → all p xs ≡ true → all p (reverse xs) ≡ true
  all-reverse p [] e = refl
  all-reverse p (x ∷ xs) e =
      rw (reverse-cons x xs)
        (all-append p (reverse xs) (x ∷ []) (all-reverse p xs (ground arith)) (ground arith))

  pub filter-all : (p : A → Bool) (xs : List A) → all p xs ≡ true → filter p xs ≡ xs
  filter-all p [] e = refl
  filter-all p (x ∷ xs) e = ground (arith, filter-all p xs)

  pub filter-append :
      (p : A → Bool) (xs ys : List A) → filter p (xs ++ ys) ≡ filter p xs ++ filter p ys
  filter-append p [] ys = refl
  filter-append p (x ∷ xs) ys = ground (arith, filter-append p xs ys)

  pub all-of-All {κ} :
      (P : A → Type κ) (p : A → Bool) (xs : List A)
      → ((x : A) → P x → p x ≡ true)
      → All P xs
      → all p xs ≡ true
  all-of-All P p [] h a = refl
  all-of-All P p (x ∷ xs) h a = rw (h x a.0) (all-of-All P p xs h a.1)

  pub All-of-all {κ} :
      (P : A → Type κ) (p : A → Bool) (xs : List A)
      → ((x : A) → p x ≡ true → P x)
      → all p xs ≡ true
      → All P xs
  All-of-all P p [] h e = tt
  All-of-all P p (x ∷ xs) h e = (h x (ground arith), All-of-all P p xs h (ground arith))
