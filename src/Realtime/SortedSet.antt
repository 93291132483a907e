-- ===== src/Realtime/SortedSet.antt =====
-- Redis sorted sets, as the scripts of backend/app/websocket/redis_backend.py use them: a value of
-- `Z` is what a key holds, and a missing key holds the empty set.
use chatterbox.Prelude.{
  ℕ, Bool, true, false, Option, none, some, List, ◌≡◌, ◌↔◌, ◌≤◌, ◌==◌, leb, mem, if◌then◌else◌,
}

-- the score that is left after ZREMRANGEBYSCORE -inf `max`
abbrev pub kept_above : ℕ → Option ℕ → Option ℕ
kept_above max none = none
kept_above max (some s) = if leb s max then none else some s

-- the test of ZRANGEBYSCORE -inf `max` on one member
abbrev pub is_upto : ℕ → Option ℕ → Bool
is_upto max none = false
is_upto max (some s) = leb s max

-- The commands on one key, and the documented effect of each on the scores (ZSCORE).
pub record SortedSet : Type 1 where
  pub Z : Type 0
  pub empty : Z
  pub score : ℕ → Z → Option ℕ
  pub zadd : ℕ → ℕ → Z → Z
  pub zrem : ℕ → Z → Z
  pub zremrangebyscore : ℕ → Z → Z
  pub zcard : Z → ℕ
  -- ZRANGE -1 -1 WITHSCORES: the member of the highest score
  pub zrange_last : Z → Option (ℕ × ℕ)
  -- ZRANGEBYSCORE -inf max LIMIT 0 n
  pub zrangebyscore : ℕ → ℕ → Z → List ℕ
  pub score-empty : (j : ℕ) → score j empty ≡ none
  pub score-zadd :
      (s m j : ℕ) (z : Z) → score j (zadd s m z) ≡ (if m == j then some s else score j z)
  pub score-zrem : (m j : ℕ) (z : Z) → score j (zrem m z) ≡ (if m == j then none else score j z)
  pub score-zremrangebyscore :
      (max j : ℕ) (z : Z) → score j (zremrangebyscore max z) ≡ kept_above max (score j z)
  pub zcard_zero : (z : Z) → (zcard z ≡ 0) ↔ ((j : ℕ) → score j z ≡ none)
  pub zrange_last_none : (z : Z) → (zrange_last z ≡ none) ↔ ((j : ℕ) → score j z ≡ none)
  pub zrange_last_some : (z : Z) (m s : ℕ) → zrange_last z ≡ some (m, s) → score m z ≡ some s
  pub zrange_last_max :
      (z : Z) (m s : ℕ) → zrange_last z ≡ some (m, s) → (j t : ℕ) → score j z ≡ some t → t ≤ s
  pub zrangebyscore_sound :
      (max n : ℕ) (z : Z) (j : ℕ)
      → mem j (zrangebyscore max n z) ≡ true
      → is_upto max (score j z) ≡ true
