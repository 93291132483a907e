-- ===== src/Services/CleanupWorker/Exclusion.antt =====
-- The lock of the cleanup over a sequence of commands of several runs.
use chatterbox.Prelude.{
  ℕ, ◌+◌, ◌<◌, Bool, true, false, Option, some, List, [], ◌∷◌, ◌≡◌, ◌≢◌, refl, arith, All,
  if◌then◌else◌,
}
use chatterbox.Models.{Time}
use chatterbox.Services.CleanupWorker.{Lock, acquire, release}

-- the commands on the lock's key, each with the token of its run
pub data Command : Type 0 where
  set_nx : ℕ → Command
  compare_and_delete : ℕ → Command

abbrev pub token_of : Command → ℕ
token_of (set_nx t) = t
token_of (compare_and_delete t) = t

module _ (ttl : Time) where
  -- one command at its time: whether it acquired the lock, and what the key then holds
  pub perform : Time → Command → Option Lock → Bool × Option Lock
  perform now (set_nx t) lock = acquire ttl now t lock
  perform now (compare_and_delete t) lock = (false, release now t lock)

  -- some commands in order: the tokens that acquired the lock, and what the key then holds
  pub perform_all : List (Time × Command) → Option Lock → List ℕ × Option Lock
  unfolding perform
  perform_all [] lock = ([], lock)
  perform_all ((now, c) ∷ cs) lock =
      let (acquired, lock1) = perform now c lock in
      let (tokens, lock2) = perform_all cs lock1 in
      if acquired then (token_of c ∷ tokens, lock2) else (tokens, lock2)

  holds :
      (token : ℕ) (e : Time) (cs : List (Time × Command))
      → All (λ c. (c.0 < e) × (token_of c.1 ≢ token)) cs
      → perform_all cs (some (record { token = token; expires_at = e }))
        ≡ ([], some (record { token = token; expires_at = e }))
  unfolding perform_all acquire release
  holds token e [] h = refl
  holds token e ((now, set_nx t) ∷ cs) ((early, other), h) =
      ground (arith, early, holds token e cs h)
  holds token e ((now, compare_and_delete t) ∷ cs) ((early, other), h) =
      ground (arith, early, other, holds token e cs h)

  -- A run that acquired the lock is alone with it until the lock expires: whatever runs with other
  -- tokens do meanwhile, a late release of an expired lock included, none of them acquires the lock,
  -- and none of them deletes it.
  pub lock_exclusive :
      (now : Time) (token : ℕ) (lock : Option Lock) (cs : List (Time × Command))
      → (acquire ttl now token lock).0 ≡ true
      → All (λ c. (c.0 < now + ttl) × (token_of c.1 ≢ token)) cs
      → perform_all cs (acquire ttl now token lock).1
        ≡ ([], some (record { token = token; expires_at = now + ttl }))
  unfolding acquire
  lock_exclusive now token lock cs won h = ground (arith, won, holds token (now + ttl) cs h)
