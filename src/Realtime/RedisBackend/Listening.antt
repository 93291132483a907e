-- ===== src/Realtime/RedisBackend/Listening.antt =====
-- What the listener of an instance delivers, and how long it waits.
use mathlib.Core.List.{append_assoc, append-nil}
use chatterbox.Prelude.{
  ℕ, ◌≤◌, Bool, true, none, some, List, [], ◌∷◌, ◌++◌, ◌≡◌, refl, ◌∙◌, sym, arith,
}
use chatterbox.Config.{Settings}
use chatterbox.Models.{Uuid, Text}
use chatterbox.Realtime.Events.{Event}
use chatterbox.Realtime.SortedSet.{SortedSet}
use chatterbox.Realtime.Redis.{Envelope}
use chatterbox.Realtime.Manager.{Backend, Socket, Connections, deliver_to_users_local}
use chatterbox.Realtime.Manager.Delivery.{
  deliveries, deliveries-deliver_to_users, sent-deliver_to_users,
}
use chatterbox.Realtime.RedisBackend.{
  Poll, quiet, message, failed, App, set_available, redis_backend, deliver_envelope, listen_once,
  listen,
}

-- the envelopes that some polls give
abbrev pub envelopes : List Poll → List Envelope
envelopes [] = []
envelopes (quiet ∷ polls) = envelopes polls
envelopes (message none ∷ polls) = envelopes polls
envelopes (message (some e) ∷ polls) = e ∷ envelopes polls
envelopes (failed b ∷ polls) = envelopes polls

module _ (sets : SortedSet) (settings : Settings) (typing_member : Uuid → Uuid → ℕ)
    (action_number : Text → ℕ) (is_stale : Socket → Bool) where
  abbrev redis : Backend
  redis = redis_backend sets settings typing_member action_number

  abbrev Here : Type 0
  Here = App sets settings typing_member action_number

  abbrev pub all_deliveries : List Envelope → Connections → List (Socket × Event)
  all_deliveries [] c = []
  all_deliveries (e ∷ es) c = deliveries redis is_stale e.event e.targets c ++ all_deliveries es c

  all_deliveries-deliver :
      (es : List Envelope) (us : List Uuid) (event : Event) (m : Here)
      → all_deliveries es (deliver_to_users_local redis is_stale us event m).connections
        ≡ all_deliveries es m.connections
  all_deliveries-deliver [] us event m = refl
  all_deliveries-deliver (e ∷ es) us event m =
      rw
        (
          deliveries-deliver_to_users redis is_stale us e.targets event e.event m,
          all_deliveries-deliver es us event m,
        )
        refl

  -- The listener delivers each envelope that arrives once and in order, to the live sockets of the
  -- targets here, and nothing else, whatever is malformed and however often the connection fails and
  -- is made again; and it never waits less than half a second nor more than ten before it tries again.
  pub listen_lem :
      (polls : List Poll) (retry_delay : ℕ) (m : Here)
      → 500 ≤ retry_delay
      → retry_delay ≤ 10_000
      → let (delay, t) =
          listen sets settings typing_member action_number is_stale polls (retry_delay, m) in
        (t.sent ≡ m.sent ++ all_deliveries (envelopes polls) m.connections)
        × (500 ≤ delay)
        × (delay ≤ 10_000)
  unfolding listen listen_once deliver_envelope
  listen_lem [] d m low high = (sym (append-nil m.sent), low, high)
  listen_lem (quiet ∷ polls) d m low high = listen_lem polls d m low high
  listen_lem (message none ∷ polls) d m low high =
      listen_lem polls 500 _ (omega arith) (omega arith)
  listen_lem (message (some e) ∷ polls) d m low high =
      let delivered : Here = deliver_to_users_local redis is_stale e.targets e.event m in
      let (sent, shortest, longest) =
        listen_lem polls 500
          (set_available sets settings typing_member action_number true delivered) (omega arith)
          (omega arith) in
      (
        sent
            ∙ rw
                (
                  sent-deliver_to_users redis is_stale e.targets e.event m,
                  all_deliveries-deliver (envelopes polls) e.targets e.event m,
                )
                (append_assoc m.sent (deliveries redis is_stale e.event e.targets m.connections)
                  (all_deliveries (envelopes polls) m.connections)),
        shortest,
        longest,
      )
  listen_lem (failed b ∷ polls) d m low high = listen_lem polls _ _ (ground arith) (ground arith)
