-- ===== src/Examples/Instances.antt =====
-- Two instances that share Redis.
use chatterbox.Prelude.{
  ℕ, ◌+◌, ◌≤◌, Bool, true, false, none, some, List, [], ◌∷◌, ◌++◌, ◌≡◌, refl, arith, not, ◌==◌,
}
use chatterbox.Models.{Uuid, Text}
use chatterbox.Realtime.Manager.{Connections}
use chatterbox.Realtime.Redis.{Envelope, presence_connect, online_user_ids}
use chatterbox.Realtime.Redis.Online.{Action}
use chatterbox.Realtime.RedisBackend.{Poll, Node, App, listen}
use chatterbox.Realtime.RedisBackend.Listening.{envelopes, all_deliveries, listen_lem}
use chatterbox.Realtime.RedisBackend.Cluster.{Cluster}
use chatterbox.Realtime.RedisBackend.Maintenance.Liveness.{Round, rounds, stays_online}
use chatterbox.Examples.World.{settings}
use chatterbox.Examples.Stores.{scores}
use chatterbox.Examples.Live.{is_stale, event}
use chatterbox.Examples.Shared.{shared}

abbrev member : Uuid → Uuid → ℕ
member c u = c + u

abbrev number : Text → ℕ
number t = 0

abbrev node : ℕ → Bool → Node scores settings member number
node i reachable = record {
  shared = shared;
  instance_id = i;
  is_available = true;
  reachable = reachable;
  now = 20;
}

abbrev app : ℕ → Bool → Connections → App scores settings member number
app i reachable c = record {
  connections = c;
  attached = true;
  shared = node i reachable;
  timers = [];
  sent = [];
}

-- the message is lost on the way to instance 9
abbrev hears : ℕ → Bool
hears i = not (i == 9)

-- instance 7 has lost Redis
abbrev cluster : Cluster scores settings member number is_stale
cluster = record {
  shared = shared;
  instances =
      app 8 true ((1, 11 ∷ []) ∷ (2, 21 ∷ []) ∷ [])
      ∷ app 7 false ((1, 12 ∷ []) ∷ [])
      ∷ app 9 true ((2, 22 ∷ []) ∷ [])
      ∷ app 6 true ((2, 23 ∷ []) ∷ [])
      ∷ [];
}

abbrev envelope : Envelope
envelope = record { targets = 1 ∷ 2 ∷ []; event = event }

abbrev polls : List Poll
polls =
    Poll.quiet
    ∷ Poll.failed false
    ∷ Poll.failed true
    ∷ Poll.message none
    ∷ Poll.message (some envelope)
    ∷ []

abbrev one : App scores settings member number
one = app 8 true ((1, 11 ∷ []) ∷ [])

listen_lem_example :
    ((listen scores settings member number is_stale polls (500, one)).1.sent
      ≡ []
        ++ all_deliveries scores settings member number is_stale (envelopes polls) one.connections)
    × (500 ≤ (listen scores settings member number is_stale polls (500, one)).0)
    × ((listen scores settings member number is_stale polls (500, one)).0 ≤ 10_000)
listen_lem_example =
    listen_lem scores settings member number is_stale polls 500 one (omega arith) (omega arith)

-- rounds a second apart, while instance 8 connects and disconnects the user
abbrev plan : List (Round scores settings member number)
plan =
    record {
      at = 1_000_000;
      local_user_ids = 1 ∷ [];
      meanwhile = λ p. [];
      after = (1_500_000, Action.connects 8 1) ∷ [];
    }
    ∷ record {
      at = 2_000_000;
      local_user_ids = 1 ∷ [];
      meanwhile = λ p. (2_000_100, Action.disconnects 8 1) ∷ [];
      after = [];
    }
    ∷ []

stays_online_example :
    (online_user_ids scores 2_500_000
      (1 ∷ [])
      (rounds scores settings member number plan (
        0,
        record (node 7 true) { shared = (presence_connect scores 60_000_000 500_000 7 1 shared).1 },
      )).1.shared).0
    ≡ 1 ∷ []
stays_online_example =
    stays_online scores settings member number 1_000_000 500_000 2_500_000 1 plan 0 (node 7 true)
      refl (omega arith) (omega arith) (omega arith) (λ j. refl)
      (
        omega arith,
        omega arith,
        refl,
        (λ p. tt),
        (omega arith, omega arith, (λ e. omega arith), tt),
        (
          omega arith,
          omega arith,
          refl,
          (λ p. (omega arith, omega arith, (λ e. omega arith), tt)),
          tt,
          tt,
        ),
      )
      (omega arith)
