-- ===== src/Services/Auth/Stored.antt =====
-- The stored refresh tokens under revocation and insertion (token_repository.py).
use chatterbox.Prelude.{
  ◌≤◌, true, none, some, List, [], ◌∷◌, ◌≡◌, refl, ◌≢◌, inl, inr, arith, find?, update_where,
  Bool-cases, ◌==◌, All,
}
use chatterbox.Prelude.Rows.{find?-All, find?_holds}
use chatterbox.Models.{Uuid, Time, RefreshToken}
use chatterbox.Repositories.Tokens.{is_active}

-- The unique constraint on `jti`.
abbrev pub HasUniqueJtis : List RefreshToken → Type 0
HasUniqueJtis [] = Unit
HasUniqueJtis (x ∷ xs) = All (λ y. y.jti ≢ x.jti) xs × HasUniqueJtis xs

-- No stored token has a `jti`: it was drawn anew.
abbrev pub IsFresh : Uuid → List RefreshToken → Type 0
IsFresh jti rows = All (λ t. t.jti ≢ jti) rows

abbrev pub revoke_row : Time → RefreshToken → RefreshToken
revoke_row now t = record t { revoked_at = some now }

other_rows :
    (jti : Uuid) (rows : List RefreshToken) (s : RefreshToken) (j : Uuid)
    → j ≡ jti
    → All (λ y. y.jti ≢ j) rows
    → All (λ x. x.jti ≡ jti → x.id ≡ s.id) rows
other_rows jti [] s j e h = tt
other_rows jti (x ∷ rows) s j e h =
    (λ same. absurd (h.0 (omega arith)), other_rows jti rows s j e h.1)

-- Whatever row has the `jti` of an active row is that row.
pub same_row :
    (now : Time) (jti : Uuid) (rows : List RefreshToken) (s : RefreshToken)
    → HasUniqueJtis rows
    → find? (is_active now jti) rows ≡ some s
    → All (λ x. x.jti ≡ jti → x.id ≡ s.id) rows
same_row now jti [] s u e = tt
same_row now jti (x ∷ rows) s u e = elim (Bool-cases (is_active now jti x)) [
  | inl active ↦ (ground arith, other_rows jti rows s x.jti (ground arith) u.0)
  | inr inactive ↦
      (let later : find? (is_active now jti) rows ≡ some s = ground arith in
        let ne : s.jti ≢ x.jti =
          find?-All (λ y. y.jti ≢ x.jti) (is_active now jti) rows s u.0 later in
        let holds : is_active now jti s ≡ true = find?_holds (is_active now jti) rows s later in
        (ground (arith, ne, holds), same_row now jti rows s u.1 later))
]

-- Once the row of a `jti` is revoked, no row is active under it, now or later.
pub revoked_inactive :
    (now now' : Time) (jti id : Uuid) (rows : List RefreshToken)
    → All (λ x. x.jti ≡ jti → x.id ≡ id) rows
    → find? (is_active now' jti) (update_where (λ t. t.id == id) (revoke_row now) rows) ≡ none
revoked_inactive now now' jti id [] h = refl
revoked_inactive now now' jti id (x ∷ rows) h =
    ground (arith, h.0, revoked_inactive now now' jti id rows h.1)

-- What is not active at one time is not active later.
pub inactive_later :
    (now now' : Time) (jti : Uuid) (rows : List RefreshToken)
    → now ≤ now'
    → find? (is_active now jti) rows ≡ none
    → find? (is_active now' jti) rows ≡ none
inactive_later now now' jti [] le h = refl
inactive_later now now' jti (x ∷ rows) le h = ground (arith, inactive_later now now' jti rows le)

pub find?_other :
    (now : Time) (jti : Uuid) (rows : List RefreshToken)
    → IsFresh jti rows
    → find? (is_active now jti) rows ≡ none
find?_other now jti [] h = refl
find?_other now jti (x ∷ rows) h = ground (arith, h.0, find?_other now jti rows h.1)

pub revoked-IsFresh :
    (now : Time) (jti id : Uuid) (rows : List RefreshToken)
    → IsFresh jti rows
    → IsFresh jti (update_where (λ t. t.id == id) (revoke_row now) rows)
revoked-IsFresh now jti id [] h = tt
revoked-IsFresh now jti id (x ∷ rows) h = (ground (arith, h.0), revoked-IsFresh now jti id rows h.1)
