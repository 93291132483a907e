-- ===== src/Examples/Stores.antt =====
-- A sorted set as a dict of scores, and a backend that is never available.
use chatterbox.Prelude.{
  ℕ, zero, suc, ◌≤◌, true, false, Option, none, some, List, [], ◌∷◌, ◌≡◌, refl, inl, inr, arith,
  length, mem, leb, is_some, ==_iff, ==_self, Option-cases, if◌then◌else◌,
}
use chatterbox.Prelude.Dict.{Dict, lookup, put, remove, nat_eq, lookup-put, lookup-remove}
use chatterbox.Errors.{ok}
use chatterbox.Realtime.SortedSet.{SortedSet, kept_above, is_upto}
use chatterbox.Realtime.Manager.{Backend}

abbrev Z : Type 0
Z = Dict ℕ ℕ

-- a member that is dropped is dropped behind as well
abbrev drop_upto : ℕ → Z → Z
drop_upto max [] = []
drop_upto max ((m, s) ∷ z) =
    let rest = drop_upto max z in if leb s max then remove m rest else (m, s) ∷ rest

pub score-drop_upto : (max j : ℕ) (z : Z) → lookup j (drop_upto max z) ≡ kept_above max (lookup j z)
unfolding lookup
score-drop_upto max j [] = refl
score-drop_upto max j ((m, s) ∷ z) =
    ground (arith, ==_iff m j, score-drop_upto max j z, lookup-remove m j (drop_upto max z))

abbrev NoneScored : Z → Type 0
NoneScored z = (j : ℕ) → lookup j z ≡ none

pub empty_of_NoneScored : (z : Z) → NoneScored z → length z ≡ 0
unfolding lookup
empty_of_NoneScored [] h = refl
empty_of_NoneScored ((m, s) ∷ z) h = ground (arith, ==_self m, h m)

pub NoneScored-of_empty : (z : Z) → length z ≡ 0 → NoneScored z
unfolding lookup
NoneScored-of_empty [] h j = refl
NoneScored-of_empty ((m, s) ∷ z) h j = ground arith

abbrev higher : ℕ → Option ℕ → Option (ℕ × ℕ) → Option (ℕ × ℕ)
higher m none best = best
higher m (some s) none = some (m, s)
higher m (some s) (some (n, t)) = if leb t s then some (m, s) else some (n, t)

-- the highest score in `z` of the members of `ys`
abbrev highest : Z → Z → Option (ℕ × ℕ)
highest z [] = none
highest z ((m, s) ∷ ys) = higher m (lookup m z) (highest z ys)

pub highest_scored : (z ys : Z) (m s : ℕ) → highest z ys ≡ some (m, s) → lookup m z ≡ some s
highest_scored z [] m s h = cc
highest_scored z ((k, x) ∷ ys) m s h = elim (Option-cases (lookup k z)) [
  | inl nothing ↦ ground (arith, nothing, highest_scored z ys m s)
  | inr (t, found) ↦ elim (Option-cases (highest z ys)) [
    | inl nothing ↦ ground (arith, nothing, found)
    | inr (best, e) ↦ ground (arith, found, e, highest_scored z ys m s)
  ]
]

highest-some :
    (z ys : Z) (j t : ℕ)
    → is_some (lookup j ys) ≡ true
    → lookup j z ≡ some t
    → is_some (highest z ys) ≡ true
unfolding lookup
highest-some z [] j t listed found = cc
highest-some z ((k, x) ∷ ys) j t listed found =
    ground (arith, found, ==_iff k j, highest-some z ys j t)

pub highest_max :
    (z ys : Z) (m s j t : ℕ)
    → highest z ys ≡ some (m, s)
    → is_some (lookup j ys) ≡ true
    → lookup j z ≡ some t
    → t ≤ s
unfolding lookup
highest_max z [] m s j t h listed found = cc
highest_max z ((k, x) ∷ ys) m s j t h listed found = elim (Option-cases (highest z ys)) [
  | inl nothing ↦ ground (arith, nothing, found, ==_iff k j, highest-some z ys j t)
  | inr ((n, w), e) ↦ ground (arith, found, e, ==_iff k j, highest_max z ys n w j t e)
]

pub all_of_highest-none : (z : Z) → highest z z ≡ none → NoneScored z
all_of_highest-none z h j = elim (Option-cases (lookup j z)) [
  | inl nothing ↦ nothing
  | inr (t, found) ↦
      (let e = highest-some z z j t (ground (arith, found)) found in ground (arith, h, e))
]

pub highest-none_of_all : (z : Z) → NoneScored z → highest z z ≡ none
unfolding lookup
highest-none_of_all [] h = refl
highest-none_of_all ((m, s) ∷ z) h = ground (arith, ==_self m, h m)

-- the members of `ys`, up to a number of them, whose score in `z` is at most `max`
abbrev due : ℕ → Z → ℕ → Z → List ℕ
due max z zero ys = []
due max z (suc n) [] = []
due max z (suc n) ((m, s) ∷ ys) =
    let rest = due max z n ys in
    let more = due max z (suc n) ys in if is_upto max (lookup m z) then m ∷ rest else more

pub due_sound :
    (max : ℕ) (z : Z) (n : ℕ) (ys : Z) (j : ℕ)
    → mem j (due max z n ys) ≡ true
    → is_upto max (lookup j z) ≡ true
due_sound max z zero ys j h = cc
due_sound max z (suc n) [] j h = cc
due_sound max z (suc n) ((m, s) ∷ ys) j h =
    ground (arith, ==_iff m j, due_sound max z n ys j, due_sound max z (suc n) ys j)

pub highest_of_all :
    (z : Z) (m s : ℕ) → highest z z ≡ some (m, s) → (j t : ℕ) → lookup j z ≡ some t → t ≤ s
highest_of_all z m s h j t found = highest_max z z m s j t h (ground (arith, found)) found

pub lookup_nil : (j : ℕ) → lookup {V = ℕ} j [] ≡ none
unfolding lookup
lookup_nil j = refl

abbrev pub scores : SortedSet
scores = record {
  Z = Z;
  empty = [];
  score = lookup;
  zadd = λ s m z. put m s z;
  zrem = remove;
  zremrangebyscore = drop_upto;
  zcard = length;
  zrange_last = λ z. highest z z;
  zrangebyscore = λ max n z. due max z n z;
  score-empty = lookup_nil;
  score-zadd = λ s m j z. lookup-put m j s z;
  score-zrem = lookup-remove;
  score-zremrangebyscore = score-drop_upto;
  zcard_zero = λ z. (NoneScored-of_empty z, empty_of_NoneScored z);
  zrange_last_none = λ z. (all_of_highest-none z, highest-none_of_all z);
  zrange_last_some = λ z m s. highest_scored z z m s;
  zrange_last_max = highest_of_all;
  zrangebyscore_sound = λ max n z j. due_sound max z n z j;
}

abbrev pub backend : Backend
backend = record {
  State = Unit {0};
  available = λ _. false;
  publish_users = λ _ _ s. (ok false, s);
  user_connected = λ _ s. (ok true, s);
  user_disconnected = λ _ s. (ok true, s);
  online_user_ids = λ _ s. (ok [], s);
  allow_action = λ _ _ _ _ s. (ok true, s);
  typing_started = λ _ _ _ _ _ s. (ok false, s);
  typing_stopped = λ _ _ _ _ s. (ok false, s);
}
