-- ===== src/Schemas/Filenames.antt =====
-- What a file name is after its validation.
use chatterbox.Prelude.{
  ℕ, Bool, true, ◌&&◌, not, some, List, [], ◌∷◌, ◌≡◌, ◌≢◌, ap, ◌∙◌, arith, All, get_last?, ◌==◌,
  codes, strip, split_on, onto_first, inl, inr, Bool-cases, Option-cases,
}
use chatterbox.Models.{Text}
use chatterbox.Schemas.{slashed, normalize_filename}

-- every character passes a test
abbrev Each : (ℕ → Bool) → Text → Type 0
Each p t = All (λ c. p c ≡ true) t

-- neither a slash nor a backslash
abbrev pub is_plain : ℕ → Bool
is_plain c = not (c == 47) && not (c == 92)

abbrev not_backslash : ℕ → Bool
not_backslash c = not (c == 92)

slashed-Each : (t : Text) → Each not_backslash (slashed t)
slashed-Each [] = tt
slashed-Each (c ∷ cs) = (ground arith, slashed-Each cs)

onto_first-All :
    (P : Text → Type 0) (c : ℕ) (ts : List Text)
    → ((t : Text) → P t → P (c ∷ t))
    → P (c ∷ [])
    → All P ts
    → All P (onto_first c ts)
onto_first-All P c [] f one h = (one, tt)
onto_first-All P c (t ∷ ts) f one h = (f t h.0, h.1)

-- the parts of a text without backslashes are plain
split_on-plain : (t : Text) → Each not_backslash t → All (Each is_plain) (split_on 47 t)
unfolding split_on
split_on-plain [] h = (tt, tt)
split_on-plain (c ∷ cs) (here, h) = elim (Bool-cases (c == 47)) [
  | inl e ↦ rw e (tt, split_on-plain cs h)
  | inr e ↦ rw e (
      onto_first-All (Each is_plain) c (split_on 47 cs)
        (λ t plain. (ground (arith, e, here), plain)) (ground (arith, e, here), tt)
        (split_on-plain cs h))
]

get_last-All :
    (P : Text → Type 0) (ts : List Text) (t : Text) → All P ts → get_last? ts ≡ some t → P t
get_last-All P [] t h e = absurd cc
get_last-All P (x ∷ []) t h e = (let same : x ≡ t = cc in rw same at h.0)
get_last-All P (x ∷ y ∷ ts) t h e = get_last-All P (y ∷ ts) t h.1 e

-- A file name that was accepted is no path: it has neither a slash nor a backslash, and it is neither
-- empty nor one of the two names of directories.
pub normalize_filename_lem :
    (value name : Text)
    → normalize_filename value ≡ some name
    → All (λ c. is_plain c ≡ true) name × (name ≢ []) × (name ≢ codes ".") × (name ≢ codes "..")
unfolding normalize_filename
normalize_filename_lem value name h =
    let parts : List Text = split_on 47 (slashed (strip value)) in
    let plain : All (Each is_plain) parts =
      split_on-plain (slashed (strip value)) (slashed-Each (strip value)) in
    elim (Option-cases (get_last? parts)) [
      | inl nothing ↦ absurd (ground (arith, nothing, h))
      | inr (t, found) ↦
          (let fine = get_last-All (Each is_plain) parts t plain found in
            let same : t ≡ name = ground (arith, found, h) in
            let last : (n : Text) → name ≡ n → get_last? parts ≡ some n =
              λ n e. found ∙ ap some (same ∙ e) in
            (
              rw⁻¹ same fine,
              λ e. ground (arith, last [] e, h),
              λ e. ground (arith, last (codes ".") e, h),
              λ e. ground (arith, last (codes "..") e, h),
            ))
    ]
