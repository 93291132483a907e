-- ===== src/Realtime/RedisBackend.antt =====
-- `RedisRealtimeBackend` of backend/app/websocket/redis_backend.py as the backend of a connection
-- manager, and its listener.
pub mod Lifecycle
pub mod Listening
pub mod Cluster
pub mod Maintenance
use chatterbox.Prelude.{
  ℕ, ◌+◌, ◌*◌, Bool, true, false, Option, none, some, List, [], ◌∷◌, map, ◌==◌, leb, if◌then◌else◌,
}
use chatterbox.Config.{Settings}
use chatterbox.Errors.{failure, Result, ok, raised}
use chatterbox.Models.{Uuid, Time, Text}
use chatterbox.Realtime.Events.{Event}
use chatterbox.Realtime.SortedSet.{SortedSet}
use chatterbox.Realtime.Redis
use chatterbox.Realtime.Redis.{Instance, Shared, Envelope, publish}
use chatterbox.Realtime.Manager.{Backend, Socket, Manager, deliver_to_users_local}

-- `action.replace(":", "_")`
abbrev pub safe_action : Text → Text
safe_action action = map (λ c. if c == 58 then 95 else c) action

-- What one call of `get_message` gives: nothing; a message, whose data are an envelope or malformed;
-- or an exception, after which the connection is made again or not.
pub data Poll : Type 0 where
  quiet : Poll
  message : Option Envelope → Poll
  failed : Bool → Poll

-- `typing_member` and the keys of the rate limit are strings; they stand here for their numbers.
module _ (sets : SortedSet) (settings : Settings) (typing_member : Uuid → Uuid → ℕ)
    (action_number : Text → ℕ) where
  -- One instance's backend, its `_available`, whether Redis answers it, and its clock.
  pub record Node : Type 0 where
    pub shared : Shared sets
    pub instance_id : Instance
    pub is_available : Bool
    pub reachable : Bool
    pub now : Time

  -- a script or a pipeline, which raises where Redis does not answer
  abbrev pub command : {A : Type 0} → (Shared sets → A × Shared sets) → Node → Result A × Node
  command f n =
      let (a, s) = f n.shared in
      if n.reachable then (ok a, record n { shared = s }) else (raised failure, n)

  -- `if not self.available: return False`
  abbrev pub if_available : (Node → Result Bool × Node) → Node → Result Bool × Node
  if_available call n = if n.is_available then call n else (ok false, n)

  abbrev pub publish_users : List Uuid → Event → Node → Result Bool × Node
  publish_users user_ids event = if_available (command (λ s. (true, publish sets user_ids event s)))

  abbrev pub user_connected : Uuid → Node → Result Bool × Node
  user_connected user_id n =
      command
        (Redis.presence_connect sets (settings.presence_ttl_seconds * 1_000_000) n.now n.instance_id
          user_id)
        n

  abbrev pub user_disconnected : Uuid → Node → Result Bool × Node
  user_disconnected user_id n =
      command (Redis.presence_disconnect sets n.now n.instance_id user_id) n

  -- without users, Redis is not asked
  abbrev pub online_user_ids : List Uuid → Node → Result (List Uuid) × Node
  online_user_ids [] n = (ok [], n)
  online_user_ids (u ∷ us) n = command (Redis.online_user_ids sets n.now (u ∷ us)) n

  abbrev pub allow_action : Uuid → Text → ℕ → ℕ → Node → Result Bool × Node
  allow_action user_id action limit window_seconds n =
      command
        (Redis.rate_limit sets n.now limit (window_seconds * 1_000_000)
          (action_number (safe_action action), user_id))
        n

  abbrev pub typing_started : Uuid → Uuid → List Uuid → Event → Event → Node → Result Bool × Node
  typing_started conversation_id user_id target_ids started_event stopped_event = if_available (λ n.
      command
        (λ s. (
          true,
          Redis.typing_started sets settings.typing_ttl n.now
              (typing_member conversation_id user_id) target_ids started_event stopped_event s,
        ))
        n)

  abbrev pub typing_stopped : Uuid → Uuid → List Uuid → Event → Node → Result Bool × Node
  typing_stopped conversation_id user_id target_ids stopped_event = if_available (
      command (λ s. (
        true,
        Redis.typing_stopped sets (typing_member conversation_id user_id) target_ids stopped_event
            s,
      )))

  abbrev pub redis_backend : Backend
  redis_backend = record {
    State = Node;
    available = λ n. n.is_available;
    publish_users = publish_users;
    user_connected = user_connected;
    user_disconnected = user_disconnected;
    online_user_ids = online_user_ids;
    allow_action = allow_action;
    typing_started = typing_started;
    typing_stopped = typing_stopped;
  }

  -- an instance of the application
  abbrev pub App : Type 0
  App = Manager redis_backend

  abbrev pub set_available : Bool → App → App
  set_available b m = record m { shared = record m.shared { is_available = b } }

  module _ (is_stale : Socket → Bool) where
    -- `_deliver_envelope`
    unfoldable pub deliver_envelope : Option Envelope → App → App
    deliver_envelope none m = m
    deliver_envelope (some e) m = deliver_to_users_local redis_backend is_stale e.targets e.event m

    abbrev capped : ℕ → ℕ
    capped delay = if leb delay 10_000 then delay else 10_000

    -- one round of `_listen`, with `retry_delay` in milliseconds
    unfoldable pub listen_once : Poll → ℕ × App → ℕ × App
    unfolding deliver_envelope
    listen_once quiet (retry_delay, m) = (retry_delay, m)
    listen_once (message data') (retry_delay, m) =
        (500, set_available true (deliver_envelope data' m))
    listen_once (failed reconnected) (retry_delay, m) =
        (capped (retry_delay * 2), set_available reconnected m)

    -- `_listen` over what `get_message` gives
    unfoldable pub listen : List Poll → ℕ × App → ℕ × App
    unfolding listen_once
    listen [] s = s
    listen (p ∷ polls) s = listen polls (listen_once p s)
