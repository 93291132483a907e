-- ===== src/Realtime/Redis/Limits.antt =====
-- The shared counters of the rate limit (redis_backend.py) over a sequence of calls.
use chatterbox.Prelude.{
  ℕ, suc, ◌+◌, ◌<◌, true, false, ◌&&◌, none, some, List, [], ◌∷◌, ◌≡◌, refl, ◌∙◌, inl, inr, arith,
  Bool-cases, leb, All, if◌then◌else◌,
}
use chatterbox.Prelude.Dict.{lookup, nat_eq, pair_eq, pair_beq, pair_beq_iff, lookup-put}
use chatterbox.Models.{Time}
use chatterbox.Realtime.SortedSet.{SortedSet}
use chatterbox.Realtime.Redis.{Shared, counter_at, increment, rate_limit}

abbrev pub Key : Type 0
Key = ℕ × ℕ

abbrev pub min : ℕ → ℕ → ℕ
min m n = if leb m n then m else n

-- how many of some calls are for a key
pub occurrences : Key → List (Time × Key) → ℕ
occurrences key [] = 0
occurrences key ((now, k) ∷ calls) =
    let rest = occurrences key calls in if pair_beq k key then suc rest else rest

module _ (sets : SortedSet) (limit : ℕ → ℕ) (window : Time) where
  -- How many of some calls for a key `(action, user)` the limit lets through, among the calls for
  -- all keys in order.
  pub allowed : Key → List (Time × Key) → Shared sets → ℕ
  unfolding rate_limit
  allowed key [] s = 0
  allowed key ((now, k) ∷ calls) s =
      let (fine, s1) = rate_limit sets now (limit k.0) window k s in
      let rest = allowed key calls s1 in if pair_beq k key && fine then suc rest else rest

  rates_other :
      (now l : ℕ) (k key : Key) (s : Shared sets)
      → pair_beq k key ≡ false
      → lookup key (rate_limit sets now l window k s).1.rates ≡ lookup key s.rates
  unfolding rate_limit
  rates_other now l k key s other =
      ground (
        arith,
        other,
        lookup-put k key (increment sets now window (counter_at sets now k s)) s.rates,
      )

  rates_same :
      (now l : ℕ) (key : Key) (s : Shared sets) (n : ℕ) (e : Time)
      → lookup key s.rates ≡ some (n, e)
      → now < e
      → ((rate_limit sets now l window key s).0 ≡ leb (n + 1) l)
        × (lookup key (rate_limit sets now l window key s).1.rates ≡ some (n + 1, e))
  unfolding rate_limit
  rates_same now l key s n e h early =
      let self : pair_beq key key ≡ true = (pair_beq_iff key key).1 refl in
      ground (arith, h, early, self, lookup-put key key (n + 1, e) s.rates)

  allowed_from :
      (key : Key) (calls : List (Time × Key)) (s : Shared sets) (n : ℕ) (e : Time)
      → lookup key s.rates ≡ some (n, e)
      → All (λ c. c.0 < e) calls
      → allowed key calls s + min n (limit key.0) ≡ min (n + occurrences key calls) (limit key.0)
  unfolding allowed occurrences
  allowed_from key [] s n e h times = ground arith
  allowed_from key ((now, k) ∷ calls) s n e h (early, times) =
      let s1 = (rate_limit sets now (limit k.0) window k s).1 in
      elim (Bool-cases (pair_beq k key)) [
        | inl same ↦
            (let eq : k ≡ key = (pair_beq_iff k key).0 same in
              let step = rates_same now (limit key.0) key s n e h early in
              let s2 = (rate_limit sets now (limit key.0) window key s).1 in
              rw eq (
                ground (
                  arith,
                  (pair_beq_iff key key).1 refl,
                  step,
                  allowed_from key calls s2 (n + 1) e step.1 times,
                )))
        | inr other ↦
            (let h1 : lookup key s1.rates ≡ some (n, e) =
                rates_other now (limit k.0) k key s other ∙ h in
              ground (arith, other, allowed_from key calls s1 n e h1 times))
      ]

  -- From a call that finds no live counter on, among calls for any keys made before the window of that
  -- call ends, the limit lets through as many calls for its key as there are, but no more than the
  -- limit.
  pub allowed_in_window :
      (key : Key) (start : Time) (calls : List (Time × Key)) (s : Shared sets)
      → counter_at sets start key s ≡ none
      → All (λ c. c.0 < start + window) calls
      → allowed key ((start, key) ∷ calls) s ≡ min (1 + occurrences key calls) (limit key.0)
  unfolding allowed rate_limit
  allowed_in_window key start calls s fresh times =
      let self : pair_beq key key ≡ true = (pair_beq_iff key key).1 refl in
      let s1 = (rate_limit sets start (limit key.0) window key s).1 in
      let h : lookup key s1.rates ≡ some (1, start + window) =
        ground (arith, self, fresh, lookup-put key key (1, start + window) s.rates) in
      ground (arith, self, fresh, allowed_from key calls s1 1 (start + window) h times)
