-- ===== src/Realtime/RedisBackend/Maintenance.antt =====
-- `_maintain` of backend/app/websocket/redis_backend.py: the heartbeats and the sweeps.
pub mod Heartbeats
pub mod Liveness
use chatterbox.Prelude.{
  ℕ, ◌+◌, ◌*◌, Bool, true, false, ◌&&◌, ◌||◌, List, [], ◌∷◌, leb, if◌then◌else◌,
}
use chatterbox.Config.{Settings}
use chatterbox.Models.{Uuid, Time, Text}
use chatterbox.Realtime.SortedSet.{SortedSet}
use chatterbox.Realtime.Redis.{
  Instance, Shared, Sweep, presence_connect, take_expired, sweep_typing, sweep_presence,
}
use chatterbox.Realtime.Manager.{is_empty}
use chatterbox.Realtime.RedisBackend.{Node}

module _ (sets : SortedSet) where
  open sets use {zrangebyscore}

  -- `for user_id in await self.manager.local_user_ids(): await self.user_connected(user_id)`
  unfoldable pub heartbeat : Time → Time → Instance → List Uuid → Shared sets → Shared sets
  heartbeat ttl now instance [] s = s
  heartbeat ttl now instance (u ∷ us) s =
      heartbeat ttl now instance us (presence_connect sets ttl now instance u s).1

  -- `_sweep_typing`, of which the publications go through only if the backend is available
  unfoldable pub sweep_typing_if : Bool → Time → Shared sets → Shared sets
  sweep_typing_if true now s = sweep_typing sets now s
  sweep_typing_if false now s = (take_expired sets (zrangebyscore now 100 s.typing_expirations) s).1

module _ (sets : SortedSet) (settings : Settings) (typing_member : Uuid → Uuid → ℕ)
    (action_number : Text → ℕ) where
  abbrev Here : Type 0
  Here = Node sets settings typing_member action_number

  -- One round of the loop, on the users connected here and `next_heartbeat`: the users for which
  -- `on_presence_expired` is called. Where Redis does not answer, the first call of it raises, and
  -- the round ends; without users that call comes after the heartbeats. `others` is what happens while
  -- the presence sweep waits for Redis.
  unfoldable pub maintain :
      (Sweep → Shared sets → Shared sets) → List Uuid → Time × Here → List Uuid × Time × Here
  unfolding heartbeat sweep_typing_if
  maintain others local_user_ids (next_heartbeat, n) =
      let due = leb next_heartbeat n.now in
      let beaten =
        heartbeat sets (settings.presence_ttl_seconds * 1_000_000) n.now n.instance_id
          local_user_ids n.shared in
      let s1 = if due then beaten else n.shared in
      let s2 = sweep_typing_if sets n.is_available n.now s1 in
      let (expired, s3) = sweep_presence sets others n.now s2 in
      let next =
        if due && (n.reachable || is_empty local_user_ids)
        then n.now + settings.presence_heartbeat_seconds * 1_000_000
        else next_heartbeat in
      if n.reachable then (expired, next, record n { shared = s3 }) else ([], next, n)
