-- ===== src/Realtime/RedisBackend/Lifecycle.antt =====
-- `start`, `_subscribe` and `stop` of backend/app/websocket/redis_backend.py: the flags, the tasks and
-- the subscription of a backend. What Redis answers is given; `stop` is taken not to raise.
use chatterbox.Prelude.{Bool, true, false, ◌&&◌, ◌||◌, ◌≡◌, arith, if◌then◌else◌}
use chatterbox.Errors.{failure, Result, ok, raised}

pub data Task : Type 0 where
  absent running ended : Task

-- a subscription, once there is one
pub data PubSub : Type 0 where
  absent subscribed closed : PubSub

pub record Client : Type 0 where
  pub stopping : Bool
  pub available : Bool
  pub connected : Bool
  pub pubsub : PubSub
  pub listener : Task
  pub maintenance : Task

-- `__init__`
abbrev pub unstarted : Client
unstarted = record {
  stopping = false;
  available = false;
  connected = true;
  pubsub = PubSub.absent;
  listener = Task.absent;
  maintenance = Task.absent;
}

-- `_subscribe`: a subscription of before is closed, and whatever that raises is suppressed
unfoldable pub subscribe : Bool → Client → Result (Unit {0}) × Client
subscribe subscribes c =
    (if subscribes then ok tt else raised failure, record c { pubsub = subscribed })

abbrev started : Result (Unit {0}) × Client → Result (Unit {0}) × Client
started (raised e, c) = (raised e, c)
started (ok _, c) =
    (ok tt, record c { available = true; listener = running; maintenance = running })

-- `start`: whether the ping is answered, and the subscription made
unfoldable pub start : Bool → Bool → Client → Result (Unit {0}) × Client
unfolding subscribe
start pings subscribes c =
    let c1 = record c { stopping = false } in
    if pings then started (subscribe subscribes c1) else (raised failure, c1)

abbrev cancelled : Task → Task
cancelled Task.absent = Task.absent
cancelled running = ended
cancelled ended = ended

abbrev close : PubSub → PubSub
close PubSub.absent = PubSub.absent
close subscribed = closed
close closed = closed

-- `stop`
unfoldable pub stop : Client → Client
stop c = record {
  stopping = true;
  available = false;
  connected = false;
  pubsub = close c.pubsub;
  listener = cancelled c.listener;
  maintenance = cancelled c.maintenance;
}

abbrev pub is_running : Task → Bool
is_running running = true
is_running Task.absent = false
is_running ended = false

abbrev pub is_subscribed : PubSub → Bool
is_subscribed subscribed = true
is_subscribed PubSub.absent = false
is_subscribed closed = false

-- whether anything of a backend is left: a task, a subscription or the connection
abbrev pub is_active : Client → Bool
is_active c =
    is_running c.listener || (is_running c.maintenance || (is_subscribed c.pubsub || c.connected))

-- A backend is available, with both its tasks, exactly if its start went through.
pub start_lem :
    (pings subscribes : Bool)
    → let (r, c) = start pings subscribes unstarted in
      (c.available ≡ (pings && subscribes))
      × (is_running c.listener ≡ c.available)
      × (is_running c.maintenance ≡ c.available)
unfolding start
start_lem pings subscribes = ground arith

-- Nothing is left of a backend that was stopped, however far its start had come.
pub stop_lem : (c : Client) → (is_active (stop c) ≡ false) × ((stop c).available ≡ false)
unfolding stop
stop_lem c = ground arith
