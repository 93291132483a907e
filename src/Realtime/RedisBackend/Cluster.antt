-- ===== src/Realtime/RedisBackend/Cluster.antt =====
-- Several instances that share one Redis: an event that one of them sends, and the listeners of all.
pub mod Local
pub mod Refinement
use mathlib.Core.List.{append-nil}
use chatterbox.Prelude.{
  ℕ, zero, suc, Bool, true, false, ◌&&◌, Option, some, List, [], ◌∷◌, ◌++◌, ◌≡◌, refl, ap, ◌∙◌, sym,
  arith, map, filter, drop, length, inl, inr, Bool-cases, if◌then◌else◌,
}
use chatterbox.Config.{Settings}
use chatterbox.Models.{Uuid, Text}
use chatterbox.Realtime.Events.{Event}
use chatterbox.Realtime.SortedSet.{SortedSet}
use chatterbox.Realtime.Redis.{Instance, Shared, Envelope}
use chatterbox.Realtime.Redis
use chatterbox.Realtime.Manager.{
  Backend, Socket, sockets_of, is_empty, attempt, targets_of, drop_all, send_all, disconnect,
  distributed, send_to_users, deliver_to_user_local, deliver_to_users_local,
}
use chatterbox.Realtime.Manager.Delivery.{deliveries, sent_by_choice, sent-deliver_to_users}
use chatterbox.Realtime.RedisBackend.{App, redis_backend, deliver_envelope}

module _ (sets : SortedSet) (settings : Settings) (typing_member : Uuid → Uuid → ℕ)
    (action_number : Text → ℕ) (is_stale : Socket → Bool) where
  abbrev redis : Backend
  redis = redis_backend sets settings typing_member action_number

  abbrev Here : Type 0
  Here = App sets settings typing_member action_number

  -- the instances of the application over what Redis holds
  pub record Cluster : Type 0 where
    pub shared : Shared sets
    pub instances : List Here

  -- an instance at a moment at which Redis holds `s`
  abbrev pub sees : Shared sets → Here → Here
  sees s m = record m { shared = record m.shared { shared = s } }

  -- what one instance does
  unfoldable pub act_at : ℕ → (Here → Here) → Shared sets → List Here → Cluster
  act_at k f s [] = record { shared = s; instances = [] }
  act_at zero f s (m ∷ ms) =
      let t = f (sees s m) in record { shared = t.shared.shared; instances = t ∷ ms }
  act_at (suc k) f s (m ∷ ms) =
      let rest = act_at k f s ms in record { shared = rest.shared; instances = m ∷ rest.instances }

  unfoldable pub deliver_each : List Envelope → Here → Here
  unfolding deliver_envelope
  deliver_each [] m = m
  deliver_each (e ∷ es) m =
      deliver_each es
        (deliver_envelope sets settings typing_member action_number is_stale (some e) m)

  -- Whether an instance receives what is published: its subscription stands, Redis answers it, and
  -- Pub/Sub, which promises no delivery, does not lose the message on the way to it.
  abbrev pub listens : (Instance → Bool) → Here → Bool
  listens hears m = m.shared.is_available && (m.shared.reachable && hears m.shared.instance_id)

  abbrev pub hear : (Instance → Bool) → List Envelope → Here → Here
  hear hears es m = let t = deliver_each es m in if listens hears m then t else m

  -- every instance delivers those envelopes that it receives, one instance after the other
  unfoldable pub deliver_all : (Instance → Bool) → List Envelope → Shared sets → List Here → Cluster
  unfolding deliver_each
  deliver_all hears es s [] = record { shared = s; instances = [] }
  deliver_all hears es s (m ∷ ms) =
      let t = hear hears es (sees s m) in
      let rest = deliver_all hears es t.shared.shared ms in
      record { shared = rest.shared; instances = t ∷ rest.instances }

  -- An instance sends an event; then the listener of every instance delivers what was published, as
  -- far as it receives it.
  unfoldable pub broadcast :
      (Instance → Bool) → ℕ → List Uuid → Event → Option Uuid → Cluster → Cluster
  unfolding act_at deliver_all
  broadcast hears k user_ids event exclude c =
      let send = send_to_users redis is_stale user_ids event exclude in
      let c1 = act_at k send c.shared c.instances in
      deliver_all hears (drop (length c.shared.published) c1.shared.published) c1.shared
        c1.instances

  -- what is sent where an event is for some users and one instance alone serves them
  abbrev pub serve : List Uuid → Event → Here → List (Socket × Event)
  serve targets event m = m.sent ++ deliveries redis is_stale event targets m.connections

  -- the specification: the instances that serve an event are those that listen, or the `k`-th
  abbrev pub serve_if : (Instance → Bool) → List Uuid → Event → Here → List (Socket × Event)
  serve_if hears targets event m = if listens hears m then serve targets event m else m.sent

  abbrev pub served_at : ℕ → List Uuid → Event → List Here → List (List (Socket × Event))
  served_at k targets event [] = []
  served_at zero targets event (m ∷ ms) = serve targets event m ∷ map (λ n. n.sent) ms
  served_at (suc k) targets event (m ∷ ms) = m.sent ∷ served_at k targets event ms

  -- whether the `k`-th instance has a connection to Redis that works
  abbrev pub reaches : ℕ → List Here → Bool
  reaches k [] = false
  reaches zero (m ∷ ms) = distributed redis m && m.shared.reachable
  reaches (suc k) (m ∷ ms) = reaches k ms
