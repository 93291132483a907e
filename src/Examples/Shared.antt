-- ===== src/Examples/Shared.antt =====
-- The state that the instances share.
use chatterbox.Prelude.{ℕ, ◌+◌, none, List, [], ◌∷◌, ◌≡◌, refl, arith, ◌==◌, if◌then◌else◌}
use chatterbox.Prelude.Dict.{lookup, pair_eq, nat_eq}
use chatterbox.Models.{Time}
use chatterbox.Realtime.Redis.{Shared, Sweep, presence_connect, online_user_ids, counter_at}
use chatterbox.Realtime.Redis.Online.{Action, run, IsForeign, online_for_ttl}
use chatterbox.Realtime.Redis.Limits.{Key, min, occurrences, allowed, allowed_in_window}
use chatterbox.Examples.Stores.{scores}
open scores use {score, zrangebyscore}

-- instance 8 holds a lease on user 1 until 50, and user 1 types in a conversation until 5
abbrev pub shared : Shared scores
shared = record {
  presence = λ u. if u == 1 then (8, 50) ∷ [] else [];
  presence_expiry = λ u. 70;
  users = (1, 50) ∷ [];
  typing_expirations = (4, 5) ∷ [];
  typing_data = [];
  rates = [];
  published = [];
  sweeping = λ j. Sweep.idle;
}

-- the sweep of instance 9 takes up the user, and instance 8 disconnects before the lookup
abbrev steps : List (Time × Action scores)
steps =
    (25, Action.sweeps 9 1 1)
    ∷ (26, Action.sweeps 9 2 1)
    ∷ (30, Action.disconnects 8 1)
    ∷ (31, Action.sweeps 9 7 1)
    ∷ (60, Action.looks_up 1)
    ∷ []

foreign : IsForeign scores 60 20 1 7 steps
foreign = (
  omega arith,
  omega arith,
  tt,
  (
    omega arith,
    omega arith,
    tt,
    (
      omega arith,
      omega arith,
      (λ e. omega arith),
      (omega arith, omega arith, tt, (omega arith, omega arith, tt, tt)),
    ),
  ),
)

online_for_ttl_example :
    (online_user_ids scores 75
      (1 ∷ [])
      (run scores 60 steps (presence_connect scores 60 20 7 1 shared).1)).0
    ≡ 1 ∷ []
online_for_ttl_example =
    online_for_ttl scores 60 20 75 1 7 steps shared (λ j. refl) foreign (omega arith)

-- a limit of two calls in ten microseconds
abbrev limit : ℕ → ℕ
limit action = 2

abbrev calls : List (Time × Key)
calls = (21, (0, 1)) ∷ (22, (0, 2)) ∷ (23, (0, 1)) ∷ []

fresh : counter_at scores 20 (0, 1) shared ≡ none
unfolding lookup
fresh = refl

allowed_in_window_example :
    allowed scores limit 10 (0, 1) ((20, (0, 1)) ∷ calls) shared
    ≡ min (1 + occurrences (0, 1) calls) 2
allowed_in_window_example =
    allowed_in_window scores limit 10 (0, 1) 20 calls shared fresh
      (omega arith, (omega arith, (omega arith, tt)))
