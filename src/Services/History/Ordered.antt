-- ===== src/Services/History/Ordered.antt =====
-- Messages in an order of their places: what sorting, filtering and cutting do to each other. Both
-- directions of the history are instances.
use chatterbox.Prelude.{
  ℕ, zero, suc, Bool, true, false, ◌&&◌, some, List, [], ◌∷◌, ◌≡◌, refl, ap, ◌∙◌, sym, ◌≢◌, inl,
  inr, arith, filter, take, drop, get_last?, All, Bool-cases, if◌then◌else◌,
}
use mathlib.Core.Path.{subst, fun_ext}
use chatterbox.Prelude.Rows.{All-filter, All-imp, filter-All}
use chatterbox.Prelude.Sort.{insert_by, sort_by}
use chatterbox.Models.{Message}
use chatterbox.Repositories.Messages.{Cursor, position}

-- No two messages have the same id.
abbrev pub HasUniqueIds : List Message → Type 0
HasUniqueIds [] = Unit
HasUniqueIds (x ∷ xs) = All (λ y. y.id ≢ x.id) xs × HasUniqueIds xs

pub filter-HasUniqueIds :
    (p : Message → Bool) (xs : List Message) → HasUniqueIds xs → HasUniqueIds (filter p xs)
filter-HasUniqueIds p [] u = tt
filter-HasUniqueIds p (x ∷ xs) u = elim (Bool-cases (p x)) [
  | inl e ↦ rw e (All-filter (λ y. y.id ≢ x.id) p xs u.0, filter-HasUniqueIds p xs u.1)
  | inr e ↦ rw e (filter-HasUniqueIds p xs u.1)
]

pub filter-filter :
    (p q : Message → Bool) (xs : List Message)
    → filter q (filter p xs) ≡ filter (λ m. p m && q m) xs
filter-filter p q [] = refl
filter-filter p q (x ∷ xs) = ground (arith, filter-filter p q xs)

filter-eq_self :
    (p : Message → Bool) (xs : List Message) → All (λ m. p m ≡ true) xs → filter p xs ≡ xs
filter-eq_self p [] h = refl
filter-eq_self p (x ∷ xs) h = ground (arith, filter-eq_self p xs h.1)

module _ (rel : Cursor → Cursor → Bool) (irrefl : (c : Cursor) → rel c c ≡ false)
    (trans : (c d e : Cursor) → rel c d ≡ true → rel d e ≡ true → rel c e ≡ true)
    (total : (c d : Cursor) → rel c d ≡ false → rel d c ≡ false → c ≡ d) where
  abbrev before : Message → Message → Bool
  before a b = rel (position a) (position b)

  abbrev pub IsAscending : List Message → Type 0
  IsAscending [] = Unit
  IsAscending (x ∷ xs) = All (λ y. before x y ≡ true) xs × IsAscending xs

  pub filter-IsAscending :
      (p : Message → Bool) (xs : List Message) → IsAscending xs → IsAscending (filter p xs)
  filter-IsAscending p [] h = tt
  filter-IsAscending p (x ∷ xs) h = elim (Bool-cases (p x)) [
    | inl e ↦ rw e (All-filter (λ y. before x y ≡ true) p xs h.0, filter-IsAscending p xs h.1)
    | inr e ↦ rw e (filter-IsAscending p xs h.1)
  ]

  insert_by-All :
      (P : Message → Type 0) (x : Message) (xs : List Message)
      → P x
      → All P xs
      → All P (insert_by before x xs)
  unfolding insert_by
  insert_by-All P x [] px h = (px, tt)
  insert_by-All P x (y ∷ ys) px h = elim (Bool-cases (before y x)) [
    | inl e ↦ rw e (h.0, insert_by-All P x ys px h.1)
    | inr e ↦ rw e (px, h)
  ]

  sort_by-All : (P : Message → Type 0) (xs : List Message) → All P xs → All P (sort_by before xs)
  unfolding sort_by
  sort_by-All P [] h = tt
  sort_by-All P (x ∷ xs) h = insert_by-All P x (sort_by before xs) h.0 (sort_by-All P xs h.1)

  -- of two messages with different ids one comes first
  before_total : (x y : Message) → y.id ≢ x.id → before y x ≡ false → before x y ≡ true
  before_total x y ne h = elim (Bool-cases (before x y)) [
    | inl e ↦ e
    | inr e ↦ absurd (ne (ap (λ (c : Cursor). c.1) (total (position y) (position x) h e)))
  ]

  insert_by-IsAscending :
      (x : Message) (xs : List Message)
      → All (λ y. y.id ≢ x.id) xs
      → IsAscending xs
      → IsAscending (insert_by before x xs)
  unfolding insert_by
  insert_by-IsAscending x [] ne h = (tt, tt)
  insert_by-IsAscending x (y ∷ ys) ne h = elim (Bool-cases (before y x)) [
    | inl e ↦
        rw e
          (insert_by-All (λ z. before y z ≡ true) x ys e h.0, insert_by-IsAscending x ys ne.1 h.1)
    | inr e ↦ rw e (
        let first = before_total x y ne.0 e in
        (
          (
            first,
            All-imp (λ z. before y z ≡ true) (λ z. before x z ≡ true)
                (λ z k. trans (position x) (position y) (position z) first k) ys h.0,
          ),
          h,
        ))
  ]

  pub sort_by-IsAscending : (xs : List Message) → HasUniqueIds xs → IsAscending (sort_by before xs)
  unfolding sort_by
  sort_by-IsAscending [] u = tt
  sort_by-IsAscending (x ∷ xs) u =
      insert_by-IsAscending x (sort_by before xs) (sort_by-All (λ y. y.id ≢ x.id) xs u.0)
        (sort_by-IsAscending xs u.1)

  -- what comes after everything is put behind it, what comes before everything in front
  insert_by_front :
      (x : Message) (xs : List Message)
      → All (λ y. before y x ≡ false) xs
      → insert_by before x xs ≡ x ∷ xs
  unfolding insert_by
  insert_by_front x [] h = refl
  insert_by_front x (y ∷ ys) h = rw h.0

  asymm : (x y : Message) → before x y ≡ true → before y x ≡ false
  asymm x y h = elim (Bool-cases (before y x)) [
    | inl e ↦ cc (trans (position x) (position y) (position x) h e, irrefl (position x))
    | inr e ↦ e
  ]

  filter-insert_by :
      (p : Message → Bool) (x : Message) (xs : List Message)
      → All (λ y. y.id ≢ x.id) xs
      → IsAscending xs
      → filter p (insert_by before x xs)
        ≡ (if p x then insert_by before x (filter p xs) else filter p xs)
  unfolding insert_by
  filter-insert_by p x [] ne h = ground arith
  filter-insert_by p x (y ∷ ys) ne h = elim (Bool-cases (before y x)) [
    | inl e ↦ ground (arith, e, filter-insert_by p x ys ne.1 h.1)
    | inr e ↦
        (let first = before_total x y ne.0 e in
          let behind : All (λ z. before z x ≡ false) (y ∷ ys) = (
            e,
            All-imp (λ z. before y z ≡ true) (λ z. before z x ≡ false)
                (λ z k. asymm x z (trans (position x) (position y) (position z) first k)) ys h.0,
          ) in
          ground (
            arith,
            e,
            insert_by_front x (filter p (y ∷ ys))
                (All-filter (λ z. before z x ≡ false) p (y ∷ ys) behind),
          ))
  ]

  -- Sorting and filtering commute.
  pub filter-sort_by :
      (p : Message → Bool) (xs : List Message)
      → HasUniqueIds xs
      → filter p (sort_by before xs) ≡ sort_by before (filter p xs)
  unfolding sort_by
  filter-sort_by p [] u = refl
  filter-sort_by p (x ∷ xs) u = ground (
    arith,
    filter-insert_by p x (sort_by before xs) (sort_by-All (λ y. y.id ≢ x.id) xs u.0)
        (sort_by-IsAscending xs u.1),
    filter-sort_by p xs u.1,
  )

  filter_behind_head :
      (x : Message) (xs : List Message)
      → All (λ y. before x y ≡ true) xs
      → filter (before x) (x ∷ xs) ≡ xs
  filter_behind_head x xs h = rw (irrefl (position x)) (filter-eq_self (before x) xs h)

  last_of_take :
      (P : Message → Type 0) (n : ℕ) (xs : List Message) (m : Message)
      → get_last? (take n xs) ≡ some m
      → All P xs
      → P m
  last_of_take P zero xs m e h = cc
  last_of_take P (suc n) [] m e h = cc
  last_of_take P (suc zero) (x ∷ xs) m e h = (let same : x ≡ m = cc in subst P same h.0)
  last_of_take P (suc (suc n)) (x ∷ []) m e h = (let same : x ≡ m = cc in subst P same h.0)
  last_of_take P (suc (suc n)) (x ∷ y ∷ xs) m e h = last_of_take P (suc n) (y ∷ xs) m e h.1

  -- What comes after the last of the first `n` messages is what is left without them.
  pub filter_after_last :
      (n : ℕ) (xs : List Message) (m : Message)
      → IsAscending xs
      → get_last? (take n xs) ≡ some m
      → filter (λ y. rel (position m) (position y)) xs ≡ drop n xs
  filter_after_last zero xs m h e = cc
  filter_after_last (suc n) [] m h e = cc
  filter_after_last (suc zero) (x ∷ xs) m h e =
      let same : x ≡ m = cc in
      subst (λ z. filter (λ y. rel (position z) (position y)) (x ∷ xs) ≡ xs) same
        (filter_behind_head x xs h.0)
  filter_after_last (suc (suc n)) (x ∷ []) m h e =
      let same : x ≡ m = cc in
      subst (λ z. filter (λ y. rel (position z) (position y)) (x ∷ []) ≡ []) same
        (filter_behind_head x [] h.0)
  filter_after_last (suc (suc n)) (x ∷ y ∷ xs) m h e = ground (
    arith,
    asymm x m (last_of_take (λ z. before x z ≡ true) (suc n) (y ∷ xs) m e h.0),
    filter_after_last (suc n) (y ∷ xs) m h.1 e,
  )

  -- The messages that pass two tests, in order. If the second test holds of whatever comes after a
  -- message of which it holds, then what comes after the last of the first `n` is the rest.
  pub sort_after_last :
      (visible test : Message → Bool) (n : ℕ) (xs : List Message) (m : Message)
      → ((x y : Message) → test x ≡ true → before x y ≡ true → test y ≡ true)
      → HasUniqueIds xs
      → get_last? (take n (sort_by before (filter (λ y. visible y && test y) xs))) ≡ some m
      → sort_by before (filter (λ y. visible y && before m y) xs)
        ≡ drop n (sort_by before (filter (λ y. visible y && test y) xs))
  sort_after_last visible test n xs m closed u e =
      let both : Message → Bool = λ y. visible y && test y in
      let kept : List Message = filter both xs in
      let u' : HasUniqueIds kept = filter-HasUniqueIds both xs u in
      let passes : both m ≡ true =
        last_of_take (λ y. both y ≡ true) n (sort_by before kept) m e
          (sort_by-All (λ y. both y ≡ true) kept (filter-All both xs)) in
      let same : (λ (y : Message). both y && before m y) ≡ (λ y. visible y && before m y) =
        fun_ext (λ y. ground (arith, passes, closed m y)) in
      sym (ap (λ (p : Message → Bool). sort_by before (filter p xs)) same)
      ∙ sym (ap (sort_by before) (filter-filter both (before m) xs))
      ∙ sym (filter-sort_by (before m) kept u')
      ∙ filter_after_last n (sort_by before kept) m (sort_by-IsAscending kept u') e
