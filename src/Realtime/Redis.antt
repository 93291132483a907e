-- ===== src/Realtime/Redis.antt =====
-- backend/app/websocket/redis_backend.py: the Lua scripts and the operations of
-- `RedisRealtimeBackend` on the state that the instances share.
pub mod Leases
pub mod Holding
pub mod Sweeping
pub mod Online
pub mod Limits
pub mod Typing
use chatterbox.Prelude.{
  ℕ, ◌+◌, ◌*◌, Bool, true, false, Option, none, some, List, [], ◌∷◌, ◌++◌, ◌==◌, leb, is_some,
  if◌then◌else◌,
}
use chatterbox.Prelude.Dict.{Dict, lookup, put, remove, nat_eq, pair_eq}
use chatterbox.Models.{Uuid, Time}
use chatterbox.Realtime.Events.{Event}
use chatterbox.Realtime.SortedSet.{SortedSet}

abbrev pub Instance : Type 0
Instance = ℕ

-- What `typing_data` holds of a member, and what `publish_users` publishes.
pub record Envelope : Type 0 where
  pub targets : List Uuid
  pub event : Event

-- Where a task stands in `_sweep_presence`: between two users; after the ZREM that claims one, after
-- the ZREMRANGEBYSCORE, after a ZRANGE that found a lease or none, after the DELETE; or calling
-- `on_presence_expired`.
pub data Sweep : Type 0 where
  idle : Sweep
  claimed pruned found_empty deleted expired : Uuid → Sweep
  found_lease : Uuid → Time → Sweep

-- a function changed at one argument
abbrev pub update : {A : Type 0} → (ℕ → A) → ℕ → A → ℕ → A
update f k v j = if k == j then v else f j

module _ (sets : SortedSet) where
  open sets use {Z, empty, zadd, zrem, zremrangebyscore, zcard, zrange_last, zrangebyscore}

  -- `presence` is the key of each user with the time at which EXPIRE deletes it, `users` the key
  -- `presence:users`. Typing members are the pairs `conversation:user`, numbered by `typing_member`.
  -- `sweeping` is not in Redis: it is where the sweep of each instance stands that others see going on.
  pub record Shared : Type 0 where
    pub presence : Uuid → Z
    pub presence_expiry : Uuid → Time
    pub users : Z
    pub typing_expirations : Z
    pub typing_data : Dict ℕ Envelope
    pub rates : Dict (ℕ × ℕ) (ℕ × Time)
    pub published : List Envelope
    pub sweeping : Instance → Sweep

  -- a key that EXPIRE has deleted by `now` is empty
  abbrev pub presence_at : Time → Uuid → Shared → Z
  presence_at now user_id s =
      if leb (s.presence_expiry user_id) now then empty else s.presence user_id

  -- PRESENCE_CONNECT_SCRIPT
  unfoldable pub presence_connect : Time → Time → Instance → Uuid → Shared → Bool × Shared
  presence_connect ttl now instance user_id s =
      let z = zremrangebyscore now (presence_at now user_id s) in
      (
        zcard z == 0,
        record s {
          presence = update s.presence user_id (zadd (now + ttl) instance z);
          presence_expiry = update s.presence_expiry user_id (now + ttl * 2);
          users = zadd (now + ttl) user_id s.users;
        },
      )

  -- `if #latest == 2 then ZADD users latest[2] user`
  abbrev pub refresh_user : Uuid → Option (ℕ × ℕ) → Z → Z
  refresh_user user_id none users = users
  refresh_user user_id (some (m, score)) users = zadd score user_id users

  -- PRESENCE_DISCONNECT_SCRIPT
  unfoldable pub presence_disconnect : Time → Instance → Uuid → Shared → Bool × Shared
  presence_disconnect now instance user_id s =
      let z = zremrangebyscore now (zrem instance (presence_at now user_id s)) in
      if zcard z == 0
      then (
        true,
        record s { presence = update s.presence user_id empty; users = zrem user_id s.users },
      )
      else (
        false,
        record s {
          presence = update s.presence user_id z;
          users = refresh_user user_id (zrange_last z) s.users;
        },
      )

  -- the commands of `online_user_ids` on one user
  unfoldable pub prune : Time → Uuid → Shared → Shared
  prune now user_id s = record s {
    presence = update s.presence user_id (zremrangebyscore now (presence_at now user_id s));
  }

  -- `online_user_ids`: pruning and ZCARD for each user, in order
  unfoldable pub online_user_ids : Time → List Uuid → Shared → List Uuid × Shared
  unfolding prune
  online_user_ids now [] s = ([], s)
  online_user_ids now (u ∷ us) s =
      let s1 = prune now u s in
      let (rest, s2) = online_user_ids now us s1 in
      if zcard (s1.presence u) == 0 then (rest, s2) else (u ∷ rest, s2)

  -- RATE_LIMIT_SCRIPT on the key `rate:action:user`; a counter past its expiry is gone
  abbrev pub counter_at : Time → ℕ × ℕ → Shared → Option (ℕ × Time)
  counter_at now key s = elim (lookup key s.rates) [
    | none ↦ none
    | some (n, e) ↦ if leb e now then none else some (n, e)
  ]

  abbrev pub increment : Time → Time → Option (ℕ × Time) → ℕ × Time
  increment now window none = (1, now + window)
  increment now window (some (n, e)) = (n + 1, e)

  unfoldable pub rate_limit : Time → ℕ → Time → ℕ × ℕ → Shared → Bool × Shared
  rate_limit now limit window key s =
      let (n, e) = increment now window (counter_at now key s) in
      (leb n limit, record s { rates = put key (n, e) s.rates })

  -- `publish_users`, once the backend is known to be available
  abbrev pub publish : List Uuid → Event → Shared → Shared
  publish targets event s = record s {
    published = s.published ++ record { targets = targets; event = event } ∷ [];
  }

  -- the pipeline of `typing_started`, on the number of the typing member
  unfoldable pub typing_started : Time → Time → ℕ → List Uuid → Event → Event → Shared → Shared
  typing_started ttl now member targets started_event stopped_event s =
      publish targets started_event (record s {
        typing_data =
            put member (record { targets = targets; event = stopped_event }) s.typing_data;
        typing_expirations = zadd (now + ttl) member s.typing_expirations;
      })

  unfoldable pub typing_stopped : ℕ → List Uuid → Event → Shared → Shared
  typing_stopped member targets stopped_event s = publish targets stopped_event (record s {
    typing_expirations = zrem member s.typing_expirations;
    typing_data = remove member s.typing_data;
  })

  -- The loop of TYPING_SWEEP_SCRIPT: `ZREM ... == 1` holds while the member has a score.
  abbrev pub take_expired : List ℕ → Shared → List Envelope × Shared
  take_expired [] s = ([], s)
  take_expired (m ∷ ms) s =
      let s1 = record s {
        typing_expirations = zrem m s.typing_expirations;
        typing_data = remove m s.typing_data;
      } in
      let (found, s2) = take_expired ms s1 in
      let (same, s3) = take_expired ms s in
      if is_some (sets.score m s.typing_expirations)
      then (elim (lookup m s.typing_data) [ none ↦ (found, s2) | some d ↦ (d ∷ found, s2) ])
      else (same, s3)

  -- `_sweep_typing`: the script, and the publication of what it returned
  abbrev pub publish_each : List Envelope → Shared → Shared
  publish_each [] s = s
  publish_each (d ∷ ds) s = publish_each ds (publish d.targets d.event s)

  unfoldable pub sweep_typing : Time → Shared → Shared
  sweep_typing now s =
      let (found, s1) = take_expired (zrangebyscore now 100 s.typing_expirations) s in
      publish_each found s1

  abbrev no_ids : List Uuid → Bool
  no_ids [] = true
  no_ids (u ∷ us) = false

  -- One command of `_sweep_presence`, from where it stands, for the user that it takes up when it is
  -- idle; `cutoff` is when the sweep read the clock. The claim is the ZREM on `presence:users`.
  unfoldable pub sweep_step : Time → Time → Uuid → Sweep → Shared → Sweep × Shared
  unfolding online_user_ids
  sweep_step cutoff now user_id idle s =
      if is_some (sets.score user_id s.users)
      then (claimed user_id, record s { users = zrem user_id s.users })
      else (idle, s)
  sweep_step cutoff now user_id (claimed u) s = (
    pruned u,
    record s { presence = update s.presence u (zremrangebyscore cutoff (presence_at now u s)) },
  )
  sweep_step cutoff now user_id (pruned u) s = elim (zrange_last (presence_at now u s)) [
    | some (m, latest) ↦ (found_lease u latest, s)
    | none ↦ (found_empty u, s)
  ]
  sweep_step cutoff now user_id (found_lease u latest) s =
      (idle, record s { users = zadd latest u s.users })
  sweep_step cutoff now user_id (found_empty u) s =
      (deleted u, record s { presence = update s.presence u empty })
  sweep_step cutoff now user_id (deleted u) s =
      let (online, s1) = online_user_ids now (u ∷ []) s in
      (if no_ids online then expired u else idle, s1)
  sweep_step cutoff now user_id (expired u) s = (idle, s)

  -- The next command of a sweep that has begun, after what the others do while it stands there.
  abbrev pub resume : (Sweep → Shared → Shared) → Time → Sweep × Shared → Sweep × Shared
  resume others now (idle, s) = (idle, s)
  resume others now (expired u, s) = (expired u, s)
  resume others now (p, s) = sweep_step now now 0 p (others p s)

  abbrev is_expired : Sweep → Bool
  is_expired (expired u) = true
  is_expired _ = false

  -- One round of the loop of `_sweep_presence`: whether `on_presence_expired` is called for the user,
  -- and the state. A round has five commands at most; `others` is what the other instances and the
  -- other tasks do before each but the first.
  unfoldable pub sweep_user : (Sweep → Shared → Shared) → Time → Uuid → Shared → Bool × Shared
  unfolding sweep_step
  sweep_user others now user_id s =
      let next = resume others now in
      let (p, s1) = next (next (next (next (sweep_step now now user_id idle s)))) in
      (is_expired p, s1)

  unfoldable pub sweep_each :
      (Sweep → Shared → Shared) → Time → List Uuid → Shared → List Uuid × Shared
  unfolding sweep_user
  sweep_each others now [] s = ([], s)
  sweep_each others now (u ∷ us) s =
      let (gone, s1) = sweep_user others now u s in
      let (rest, s2) = sweep_each others now us s1 in if gone then (u ∷ rest, s2) else (rest, s2)

  -- `_sweep_presence`: the users for which `on_presence_expired` is called
  unfoldable pub sweep_presence : (Sweep → Shared → Shared) → Time → Shared → List Uuid × Shared
  unfolding sweep_each
  sweep_presence others now s = sweep_each others now (zrangebyscore now 100 s.users) s
