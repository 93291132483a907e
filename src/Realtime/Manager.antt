-- ===== src/Realtime/Manager.antt =====
-- backend/app/websocket/manager.py: the connections of one instance, its fallback typing timers,
-- and the distributed backend that it calls.
pub mod Sockets
pub mod Delivery
pub mod Stale
use chatterbox.Prelude.{
  ℕ, ◌+◌, Bool, true, false, ◌&&◌, not, Option, none, some, List, [], ◌∷◌, ◌++◌, map, filter,
  length, mem, from_keys, ◌==◌, leb, if◌then◌else◌,
}
use chatterbox.Prelude.Dict.{Dict, lookup, put, remove, nat_eq, pair_eq}
use chatterbox.Errors.{Result, ok, raised}
use chatterbox.Models.{Uuid, Time, Text}
use chatterbox.Realtime.Events.{Event}

abbrev pub Socket : Type 0
Socket = ℕ

-- `class DistributedRealtimeBackend`: its operations, over the shared state behind it.
pub record Backend : Type 1 where
  pub State : Type 0
  pub available : State → Bool
  pub publish_users : List Uuid → Event → State → Result Bool × State
  pub user_connected : Uuid → State → Result Bool × State
  pub user_disconnected : Uuid → State → Result Bool × State
  pub online_user_ids : List Uuid → State → Result (List Uuid) × State
  pub allow_action : Uuid → Text → ℕ → ℕ → State → Result Bool × State
  pub typing_started : Uuid → Uuid → List Uuid → Event → Event → State → Result Bool × State
  pub typing_stopped : Uuid → Uuid → List Uuid → Event → State → Result Bool × State

-- A sleeping task of the `TypingTracker`: when it wakes, and what `on_expire` sends to whom.
pub record Timer : Type 0 where
  pub deadline : Time
  pub targets : List Uuid
  pub event : Event

abbrev pub Connections : Type 0
Connections = Dict Uuid (List Socket)

-- `self._connections[user_id]` on a `defaultdict(set)`
abbrev pub sockets_of : Uuid → Connections → List Socket
sockets_of user_id c = elim (lookup user_id c) [ none ↦ [] | some ws ↦ ws ]

-- `set.add` and `set.discard`
abbrev pub add : Socket → List Socket → List Socket
add w ws = if mem w ws then ws else ws ++ w ∷ []

abbrev pub discard : Socket → List Socket → List Socket
discard w ws = filter (λ v. not (v == w)) ws

abbrev pub is_empty : List ℕ → Bool
is_empty [] = true
is_empty (x ∷ xs) = false

-- The locked part of `connect`.
unfoldable pub enter : Uuid → Socket → Connections → Bool × Connections
enter user_id w c = (is_empty (sockets_of user_id c), put user_id (add w (sockets_of user_id c)) c)

-- The locked part of `disconnect`: whether the user's last socket went.
unfoldable pub leave : Uuid → Socket → Connections → Bool × Connections
leave user_id w c = elim (lookup user_id c) [
  | none ↦ (false, c)
  | some ws ↦
      if is_empty (discard w ws)
      then (true, remove user_id c)
      else (false, put user_id (discard w ws) c)
]

module _ (backend : Backend) where
  open backend use {State}

  -- The manager with what it sent: every `send_json` that went through, in order.
  pub record Manager : Type 0 where
    pub connections : Connections
    pub attached : Bool
    pub shared : State
    pub timers : Dict (Uuid × Uuid) Timer
    pub sent : List (Socket × Event)

  abbrev pub distributed : Manager → Bool
  distributed m = m.attached && backend.available m.shared

  -- A call of the backend under `try`: `none` without a backend or if it raised.
  unfoldable pub attempt : {A : Type 0} → (State → Result A × State) → Manager → Option A × Manager
  attempt call m =
      if distributed m
      then (let (r, shared) = call m.shared in
          elim r [
            | ok a ↦ (some a, record m { shared = shared })
            | raised e ↦ (none, record m { shared = shared })
          ])
      else (none, m)

  abbrev or_else : {A : Type 0} → A → Option A → A
  or_else a none = a
  or_else a (some b) = b

  unfoldable pub connect : Uuid → Socket → Manager → Bool × Manager
  unfolding attempt enter
  connect user_id w m =
      let (was_offline, c) = enter user_id w m.connections in
      let m1 = record m { connections = c } in
      if was_offline
      then (let (r, m2) = attempt (backend.user_connected user_id) m1 in (or_else true r, m2))
      else (false, m1)

  unfoldable pub disconnect : Uuid → Socket → Manager → Bool × Manager
  unfolding attempt leave
  disconnect user_id w m =
      let (last, c) = leave user_id w m.connections in
      let m1 = record m { connections = c } in
      if last
      then (let (r, m2) = attempt (backend.user_disconnected user_id) m1 in (or_else true r, m2))
      else (false, m1)

  -- `is_stale` tells the sockets on which `send_json` raises `RuntimeError`.
  module _ (is_stale : Socket → Bool) where
    -- the first loop: the sends that go through
    abbrev pub send_all : Event → List Socket → Manager → Manager
    send_all event [] m = m
    send_all event (w ∷ ws) m =
        send_all event ws (if is_stale w then m else record m { sent = m.sent ++ (w, event) ∷ [] })

    -- the second loop, which drops what `disconnect` returns
    abbrev pub drop_all : Uuid → List Socket → Manager → Manager
    drop_all user_id [] m = m
    drop_all user_id (w ∷ ws) m = drop_all user_id ws (disconnect user_id w m).1

    unfoldable pub deliver_to_user_local : Uuid → Event → Manager → Manager
    deliver_to_user_local user_id event m =
        let ws = sockets_of user_id m.connections in
        drop_all user_id (filter is_stale ws) (send_all event ws m)

    -- `asyncio.gather`, one user after the other
    unfoldable pub deliver_to_users_local : List Uuid → Event → Manager → Manager
    deliver_to_users_local [] event m = m
    deliver_to_users_local (u ∷ us) event m =
        deliver_to_users_local us event (deliver_to_user_local u event m)

    abbrev pub is_excluded : Option Uuid → Uuid → Bool
    is_excluded none u = false
    is_excluded (some x) u = u == x

    abbrev pub targets_of : List Uuid → Option Uuid → List Uuid
    targets_of user_ids exclude_user_id =
        from_keys [] (filter (λ u. not (is_excluded exclude_user_id u)) user_ids)

    unfoldable pub send_to_users : List Uuid → Event → Option Uuid → Manager → Manager
    unfolding attempt
    send_to_users user_ids event exclude_user_id m =
        let targets = targets_of user_ids exclude_user_id in
        if is_empty targets
        then m
        else (let (r, m1) = attempt (backend.publish_users targets event) m in
            if or_else false r then m1 else deliver_to_users_local targets event m1)

    abbrev pub send_to_user : Uuid → Event → Manager → Manager
    send_to_user user_id event = send_to_users (user_id ∷ []) event none

    abbrev pub others : List Uuid → Uuid → List Uuid
    others member_ids user_id = filter (λ u. not (u == user_id)) member_ids

    -- `TypingTracker.stop` and `TypingTracker.start`; a cancelled task never runs on
    abbrev pub stop_timer : Uuid → Uuid → Manager → Manager
    stop_timer conversation_id user_id m = record m {
      timers = remove (conversation_id, user_id) m.timers;
    }

    abbrev pub start_timer : Uuid → Uuid → Timer → Manager → Manager
    start_timer conversation_id user_id timer m = record m {
      timers = put (conversation_id, user_id) timer (remove (conversation_id, user_id) m.timers);
    }

    -- `expire` of the task under a key, when it wakes
    unfoldable pub expire : Time → Uuid → Uuid → Manager → Manager
    expire now conversation_id user_id m = elim (lookup (conversation_id, user_id) m.timers) [
      | none ↦ m
      | some timer ↦
          if leb timer.deadline now
          then send_to_users timer.targets timer.event none (stop_timer conversation_id user_id m)
          else m
    ]

    -- `ttl` is the tracker's `ttl_seconds`
    unfoldable pub typing_start :
        Time → Time → Uuid → Uuid → List Uuid → Event → Event → Manager → Manager
    unfolding attempt
    typing_start ttl now conversation_id user_id member_ids started_event stopped_event m =
        let targets = others member_ids user_id in
        let call =
          backend.typing_started conversation_id user_id targets started_event stopped_event in
        let (r, m1) = attempt call m in
        if or_else false r
        then m1
        else send_to_users targets started_event none (
            start_timer conversation_id user_id
              (record { deadline = now + ttl; targets = targets; event = stopped_event }) m1)

    unfoldable pub typing_stop : Uuid → Uuid → List Uuid → Event → Manager → Manager
    unfolding attempt
    typing_stop conversation_id user_id member_ids stopped_event m =
        let targets = others member_ids user_id in
        let m1 = stop_timer conversation_id user_id m in
        let call = backend.typing_stopped conversation_id user_id targets stopped_event in
        let (r, m2) = attempt call m1 in
        if or_else false r then m2 else send_to_users targets stopped_event none m2

  abbrev pub connection_count : Uuid → Manager → ℕ
  connection_count user_id m = length (sockets_of user_id m.connections)

  -- `list(self._connections)`
  abbrev pub local_user_ids : Manager → List Uuid
  local_user_ids m = map (λ e. e.0) m.connections

  unfoldable pub online_user_ids : List Uuid → Manager → List Uuid × Manager
  unfolding attempt
  online_user_ids user_ids m =
      let (r, m1) = attempt (backend.online_user_ids user_ids) m in
      (or_else (filter (λ u. not (is_empty (sockets_of u m.connections))) user_ids) r, m1)

  unfoldable pub allow_action : Uuid → Text → ℕ → ℕ → Manager → Bool × Manager
  unfolding attempt
  allow_action user_id action limit window_seconds m =
      let (r, m1) = attempt (backend.allow_action user_id action limit window_seconds) m in
      (or_else true r, m1)

  -- `bool(await self.online_user_ids([user_id]))`
  abbrev pub is_online : Uuid → Manager → Bool × Manager
  is_online user_id m =
      let (online, m1) = online_user_ids (user_id ∷ []) m in (not (is_empty online), m1)

  -- there is one backend, which is attached or not
  abbrev pub attach_backend : Manager → Manager
  attach_backend m = record m { attached = true }

  abbrev pub detach_backend : Manager → Manager
  detach_backend m = record m { attached = false }
