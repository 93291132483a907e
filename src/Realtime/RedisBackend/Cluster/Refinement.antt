-- ===== src/Realtime/RedisBackend/Cluster/Refinement.antt =====
-- An event sent through Redis against the sockets of all instances.
use chatterbox.Prelude.{ℕ, Bool, Option, List, if◌then◌else◌}
use chatterbox.Config.{Settings}
use chatterbox.Models.{Uuid, Text}
use chatterbox.Realtime.Events.{Event}
use chatterbox.Realtime.SortedSet.{SortedSet}
use chatterbox.Realtime.Redis.{Instance, Shared}
use chatterbox.Realtime.Redis
use chatterbox.Realtime.Manager.{
  Backend, Socket, is_empty, targets_of, send_to_users, deliver_to_users_local,
}
use chatterbox.Realtime.RedisBackend.{App, redis_backend}
use chatterbox.Realtime.RedisBackend.Cluster.{Cluster}

module _ (sets : SortedSet) (settings : Settings) (typing_member : Uuid → Uuid → ℕ)
    (action_number : Text → ℕ) (is_stale : Socket → Bool) where
  abbrev redis : Backend
  redis = redis_backend sets settings typing_member action_number

  abbrev Here : Type 0
  Here = App sets settings typing_member action_number

  -- What a send of the `k`-th instance does where it reaches Redis: it publishes, and sends nothing.
  module _ (hears : Instance → Bool) (user_ids : List Uuid) (event : Event)
      (exclude : Option Uuid) where
    abbrev send : Here → Here
    send = send_to_users redis is_stale user_ids event exclude

    abbrev targets : List Uuid
    targets = targets_of redis is_stale user_ids exclude

    abbrev published_by_send : Shared sets → Shared sets
    published_by_send s = if is_empty targets then s else Redis.publish sets targets event s

    -- what it does elsewhere: it sends to the sockets of its own
    abbrev local : Here → Here
    local m = if is_empty targets then m else deliver_to_users_local redis is_stale targets event m
