-- ===== src/Realtime/Endpoint/Lifecycle.antt =====
-- What a connection leaves behind, and which frames it survives.
use chatterbox.Prelude.{
  ◌+◌, ◌-◌, Bool, false, not, Option, some, List, [], ◌∷◌, ◌++◌, ◌≡◌, refl, ap, ◌∙◌, inl, inr,
  arith, mem, ◌==◌, ==_iff, ==_self, Bool-cases, if◌then◌else◌,
}
use chatterbox.Prelude.Dict.{nat_eq}
use chatterbox.Prelude.Members.{mem-filter}
use chatterbox.Config.{Settings}
use chatterbox.Models.{Uuid, Time}
use chatterbox.Repositories.Users
use chatterbox.Repositories.Conversations
use chatterbox.Services.History.{CursorCodec}
use chatterbox.Services.Presence.{record_last_seen}
use chatterbox.Realtime.Events.{Event, presence_offline}
use chatterbox.Realtime.Manager
use chatterbox.Realtime.Manager.{
  Backend, Socket, Connections, Manager, sockets_of, discard, is_empty, leave, attempt, distributed,
  disconnect, deliver_to_user_local, deliver_to_users_local, targets_of, send_to_users,
}
use chatterbox.Realtime.Manager.Sockets.{
  IsTidy, sockets_of-leave, connect-disconnect_sets, local_transitions,
}
use chatterbox.Realtime.Manager.Delivery.{deliveries, sockets_of-deliver, send_to_users_local}
use chatterbox.Realtime.Handlers.{Server}
use chatterbox.Realtime.Endpoint.{Frame, Live, mark_user_offline, body, finish, endpoint}

-- a socket is none of a user's
abbrev pub IsAbsent : Socket → Uuid → Connections → Type 0
IsAbsent w u c = mem w (sockets_of u c) ≡ false

module _ (backend : Backend) (is_stale : Socket → Bool) where
  deliver_to_user-IsAbsent :
      (w : Socket) (u v : Uuid) (event : Event) (m : Manager backend)
      → IsAbsent w u m.connections
      → IsAbsent w u (deliver_to_user_local backend is_stale v event m).connections
  deliver_to_user-IsAbsent w u v event m h =
      rw (sockets_of-deliver backend is_stale u v event m) (elim (Bool-cases (v == u)) [
        | inl same ↦
            (let e : v ≡ u = (==_iff v u).0 same in
              rw (same, e)
                (ground
                  (arith, h, mem-filter (λ x. not (is_stale x)) w (sockets_of u m.connections))))
        | inr other ↦ rw other h
      ])

  deliver_to_users-IsAbsent :
      (w : Socket) (u : Uuid) (us : List Uuid) (event : Event) (m : Manager backend)
      → IsAbsent w u m.connections
      → IsAbsent w u (deliver_to_users_local backend is_stale us event m).connections
  unfolding deliver_to_users_local
  deliver_to_users-IsAbsent w u [] event m h = h
  deliver_to_users-IsAbsent w u (v ∷ us) event m h =
      deliver_to_users-IsAbsent w u us event (deliver_to_user_local backend is_stale v event m)
        (deliver_to_user-IsAbsent w u v event m h)

  -- Sending takes sockets away, and gives none.
  pub send_to_users-IsAbsent :
      (w : Socket) (u : Uuid) (ids : List Uuid) (event : Event) (exclude : Option Uuid)
      (m : Manager backend)
      → IsAbsent w u m.connections
      → IsAbsent w u (send_to_users backend is_stale ids event exclude m).connections
  unfolding send_to_users attempt
  send_to_users-IsAbsent w u ids event exclude m h =
      let targets = targets_of backend is_stale ids exclude in
      let m1 = (attempt backend (backend.publish_users targets event) m).1 in
      ground (arith, deliver_to_users-IsAbsent w u targets event m1, h)

discard-IsAbsent : (w : Socket) (ws : List Socket) → mem w (discard w ws) ≡ false
discard-IsAbsent w ws = ground (arith, mem-filter (λ x. not (x == w)) w ws, ==_self w)

module _ (backend : Backend) (codec : CursorCodec) (settings : Settings)
    (is_stale : Socket → Bool) where
  abbrev There : Type 0
  There = Server backend codec settings is_stale

  mark_user_offline-IsAbsent :
      (now : Time) (w : Socket) (u : Uuid) (s : There)
      → IsAbsent w u s.manager.connections
      → IsAbsent w u
          (mark_user_offline backend codec settings is_stale now u s).1.manager.connections
  unfolding mark_user_offline record_last_seen
  mark_user_offline-IsAbsent now w u s =
      let ids : List Uuid = Conversations.peer_ids u (Users.set_last_seen u now s.db) in
      send_to_users-IsAbsent backend is_stale w u ids (presence_offline u now) (some u) s.manager

  disconnect-IsAbsent :
      (w : Socket) (u : Uuid) (m : Manager backend)
      → IsAbsent w u (disconnect backend u w m).1.connections
  disconnect-IsAbsent w u m =
      rw ((connect-disconnect_sets backend u u w m).1, ==_self u)
        (discard-IsAbsent w (sockets_of u m.connections))

  finish-IsAbsent :
      (now : Time) (w : Socket) (u : Uuid) (live : Live backend codec settings is_stale)
      → IsAbsent w u
          (finish backend codec settings is_stale now u w live).server.manager.connections
  unfolding finish
  finish-IsAbsent now w u live =
      let (became_offline, m) = disconnect backend u w live.server.manager in
      let gone : IsAbsent w u m.connections = disconnect-IsAbsent w u live.server.manager in
      elim (Bool-cases became_offline) [
        | inl e ↦
            rw e (mark_user_offline-IsAbsent now w u (record live.server { manager = m }) gone)
        | inr e ↦ rw e gone
      ]

  connections-finish :
      (now : Time) (w : Socket) (u : Uuid) (live : Live backend codec settings is_stale)
      → (finish backend codec settings is_stale now u w live).connections ≡ live.connections - 1
  unfolding finish
  connections-finish now w u live = refl

  -- Whatever the frames, the database, the backend and the sockets do, a connection that has ended
  -- leaves its socket in the set of its user no more, and the gauge of connections as it was before.
  pub endpoint_releases :
      (opened ended : Time) (u : Uuid) (w : Socket) (frames : List Frame)
      (live : Live backend codec settings is_stale)
      → let after = (endpoint backend codec settings is_stale opened ended u w frames live).1 in
        IsAbsent w u after.server.manager.connections × (after.connections ≡ live.connections)
  unfolding endpoint
  endpoint_releases opened ended u w frames live =
      let m = Manager.connect backend u w live.server.manager in
      let begun : There = record live.server { manager = m.1 } in
      let (ending, s) = body backend codec settings is_stale m.0 opened u w frames begun in
      let open_live : Live backend codec settings is_stale = record {
        server = s;
        connections = live.connections + 1;
      } in
      (finish-IsAbsent ended w u open_live, connections-finish ended w u open_live ∙ ground arith)

  disconnect_alone :
      (w : Socket) (u : Uuid) (m : Manager backend)
      → distributed backend m ≡ false
      → (disconnect backend u w m).1 ≡ record m { connections = (leave u w m.connections).1 }
  unfolding disconnect attempt
  disconnect_alone w u m alone = ground arith

  -- a delivery that leaves out a user does not look at the user's sockets
  deliveries-leave :
      (w : Socket) (u : Uuid) (event : Event) (ids : List Uuid) (c : Connections)
      → mem u ids ≡ false
      → deliveries backend is_stale event ids (leave u w c).1
        ≡ deliveries backend is_stale event ids c
  deliveries-leave w u event [] c h = refl
  deliveries-leave w u event (v ∷ ids) c h =
      ground (
        arith,
        sockets_of-leave v u w c,
        ==_iff u v,
        ==_iff v u,
        deliveries-leave w u event ids c,
        h,
      )

  -- On an instance without an available backend, and in a map without empty sets: when the last
  -- socket of a user goes, the time is stored as the user's `last_seen`, and every live socket of each
  -- of the user's peers here gets one `presence.offline` event; when another socket of the user stays,
  -- nothing is stored and nothing sent.
  pub last_socket_goes :
      (now : Time) (w : Socket) (u : Uuid) (live : Live backend codec settings is_stale)
      → IsTidy live.server.manager.connections
      → distributed backend live.server.manager ≡ false
      → is_empty (sockets_of u live.server.manager.connections) ≡ false
      → let s = live.server in
        let t = (finish backend codec settings is_stale now u w live).server in
        let peers = targets_of backend is_stale (Conversations.peer_ids u s.db) (some u) in
        if is_empty (discard w (sockets_of u s.manager.connections))
        then (t.db ≡ Users.set_last_seen u now s.db)
          × (t.manager.sent
              ≡ s.manager.sent
                ++ deliveries backend is_stale (presence_offline u now) peers s.manager.connections)
        else (t.db ≡ s.db) × (t.manager.sent ≡ s.manager.sent)
  unfolding finish mark_user_offline record_last_seen
  last_socket_goes now w u live tidy alone here =
      let m : Manager backend = live.server.manager in
      let ids : List Uuid = Conversations.peer_ids u live.server.db in
      let event : Event = presence_offline u now in
      let left : Manager backend = record m { connections = (leave u w m.connections).1 } in
      let (sent, _, members) = send_to_users_local backend is_stale ids event (some u) left alone in
      let absent : mem u (targets_of backend is_stale ids (some u)) ≡ false =
        ground (arith, members u, ==_self u) in
      let last : (disconnect backend u w m).0 ≡ is_empty (discard w (sockets_of u m.connections)) =
        ground (arith, (local_transitions backend u w m tidy alone).1, here) in
      rw (last, disconnect_alone w u m alone)
        (elim (Bool-cases (is_empty (discard w (sockets_of u m.connections)))) [
          | inl e ↦ rw e (
            refl,
            sent
                ∙ ap (λ es. m.sent ++ es)
                    (deliveries-leave w u event (targets_of backend is_stale ids (some u))
                      m.connections absent),
          )
          | inr e ↦ rw e (refl, refl)
        ])
