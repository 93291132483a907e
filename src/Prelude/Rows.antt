-- ===== src/Prelude/Rows.antt =====
-- What a search, a filter or an update of rows does to another search.
use mathlib.Core.Path.{◌≡◌, refl, subst}
use mathlib.Core.Logic.{inl, inr}
use mathlib.Core.List.{List, [], ◌∷◌, ◌++◌}
use mathlib.Core.Bool.{Bool, true, false}
use mathlib.Core.Option.{none, some}
use native.Mathlib.Omega.{arith}
use chatterbox.Prelude.Tests.{is_some, Bool-cases}
use chatterbox.Prelude.Lists.{find?, any, filter, update_where, All}

module _ {ℓ} {A : Type ℓ} (p : A → Bool) where
  pub find?-append_none : (xs ys : List A) → find? p xs ≡ none → find? p (xs ++ ys) ≡ find? p ys
  find?-append_none [] ys h = refl
  find?-append_none (x ∷ xs) ys h = ground (arith, find?-append_none xs ys)

  pub find?-append_some :
      (xs ys : List A) (x : A) → find? p xs ≡ some x → find? p (xs ++ ys) ≡ some x
  find?-append_some [] ys x h = ground arith
  find?-append_some (y ∷ xs) ys x h = ground (arith, find?-append_some xs ys x)

  -- what is found passes the test
  pub find?_holds : (xs : List A) (x : A) → find? p xs ≡ some x → p x ≡ true
  find?_holds [] x h = ground arith
  find?_holds (y ∷ xs) x h = ground (arith, find?_holds xs x)

  -- nothing is found exactly when no row passes
  pub find?-eq_none_of_All : (xs : List A) → All (λ x. p x ≡ false) xs → find? p xs ≡ none
  find?-eq_none_of_All [] h = refl
  find?-eq_none_of_All (x ∷ xs) h = ground (arith, find?-eq_none_of_All xs h.1)

  pub All-of_find?-eq_none : (xs : List A) → find? p xs ≡ none → All (λ x. p x ≡ false) xs
  All-of_find?-eq_none [] h = tt
  All-of_find?-eq_none (x ∷ xs) h = ground (arith, All-of_find?-eq_none xs)

  pub any-eq-is_some : (xs : List A) → any p xs ≡ is_some (find? p xs)
  any-eq-is_some [] = refl
  any-eq-is_some (x ∷ xs) = ground (arith, any-eq-is_some xs)

module _ {ℓ} {A : Type ℓ} where
  pub All-append {κ} : (P : A → Type κ) (xs ys : List A) → All P xs → All P ys → All P (xs ++ ys)
  All-append P [] ys hx hy = hy
  All-append P (x ∷ xs) ys hx hy = (hx.0, All-append P xs ys hx.1 hy)

  pub All-imp {κ μ} :
      (P : A → Type κ) (Q : A → Type μ)
      → ((x : A) → P x → Q x)
      → (xs : List A) → All P xs
      → All Q xs
  All-imp P Q f [] h = tt
  All-imp P Q f (x ∷ xs) h = (f x h.0, All-imp P Q f xs h.1)

  pub All-filter {κ} :
      (P : A → Type κ) (p : A → Bool) (xs : List A) → All P xs → All P (filter p xs)
  All-filter P p [] h = tt
  All-filter P p (x ∷ xs) h = elim (Bool-cases (p x)) [
    | inl e ↦ rw e (h.0, All-filter P p xs h.1)
    | inr e ↦ rw e (All-filter P p xs h.1)
  ]

  -- what is found has what all rows have
  pub find?-All {κ} :
      (P : A → Type κ) (p : A → Bool) (xs : List A) (x : A) → All P xs → find? p xs ≡ some x → P x
  find?-All P p [] x h e = cc
  find?-All P p (y ∷ xs) x h e = elim (Bool-cases (p y)) [
    | inl passes ↦ (let same : y ≡ x = ground arith in subst P same h.0)
    | inr fails ↦ find?-All P p xs x h.1 (ground arith)
  ]

  -- every row that a filter keeps passes its test
  pub filter-All : (p : A → Bool) (xs : List A) → All (λ x. p x ≡ true) (filter p xs)
  filter-All p [] = tt
  filter-All p (x ∷ xs) = elim (Bool-cases (p x)) [
    | inl e ↦ rw e (e, filter-All p xs)
    | inr e ↦ rw e (filter-All p xs)
  ]

  -- an update of rows that keeps a property of each row
  pub update_where-All {κ} :
      (P : A → Type κ) (p : A → Bool) (f : A → A)
      → ((x : A) → P x → P (f x))
      → (xs : List A) → All P xs
      → All P (update_where p f xs)
  update_where-All P p f keep [] h = tt
  update_where-All P p f keep (x ∷ xs) h = elim (Bool-cases (p x)) [
    | inl e ↦ rw e (keep x h.0, update_where-All P p f keep xs h.1)
    | inr e ↦ rw e (h.0, update_where-All P p f keep xs h.1)
  ]
