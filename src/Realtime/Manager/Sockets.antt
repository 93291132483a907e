-- ===== src/Realtime/Manager/Sockets.antt =====
-- The connections of an instance as a map from users to sets of sockets.
use chatterbox.Prelude.{
  true, false, not, ◌&&◌, some, List, [], ◌∷◌, ◌≡◌, refl, ◌≢◌, inl, inr, arith, ◌==◌, Bool-cases,
  Option-cases, if◌then◌else◌,
}
use chatterbox.Prelude.Dict.{lookup, put, remove, nat_eq, lookup-put, lookup-remove}
use chatterbox.Models.{Uuid}
use chatterbox.Realtime.Manager.{
  Socket, Connections, Backend, Manager, sockets_of, add, discard, is_empty, enter, leave, connect,
  disconnect, attempt, distributed,
}

-- No user stands in the map with no socket.
abbrev pub IsTidy : Connections → Type 0
IsTidy c = (u : Uuid) → lookup u c ≢ some []

sockets_of-put :
    (u v : Uuid) (ws : List Socket) (c : Connections)
    → sockets_of u (put v ws c) ≡ (if v == u then ws else sockets_of u c)
sockets_of-put u v ws c = ground (arith, lookup-put v u ws c)

sockets_of-remove :
    (u v : Uuid) (c : Connections)
    → sockets_of u (remove v c) ≡ (if v == u then [] else sockets_of u c)
sockets_of-remove u v c = ground (arith, lookup-remove v u c)

pub sockets_of-enter :
    (u v : Uuid) (w : Socket) (c : Connections)
    → sockets_of u (enter v w c).1 ≡ (if v == u then add w (sockets_of v c) else sockets_of u c)
unfolding enter
sockets_of-enter u v w c = sockets_of-put u v (add w (sockets_of v c)) c

nil_of_is_empty : (ws : List Socket) → is_empty ws ≡ true → ws ≡ []
nil_of_is_empty [] h = refl
nil_of_is_empty (w ∷ ws) h = cc

pub sockets_of-leave :
    (u v : Uuid) (w : Socket) (c : Connections)
    → sockets_of u (leave v w c).1 ≡ (if v == u then discard w (sockets_of v c) else sockets_of u c)
unfolding leave
sockets_of-leave u v w c = elim (Option-cases (lookup v c)) [
  | inl nothing ↦ ground (arith, nothing)
  | inr (ws, e) ↦ ground (
    arith,
    e,
    nil_of_is_empty (discard w ws),
    lookup-remove v u c,
    lookup-put v u (discard w ws) c,
  )
]

add_ne_nil : (w : Socket) (ws : List Socket) → add w ws ≢ []
add_ne_nil w [] e = cc
add_ne_nil w (v ∷ ws) e = ground arith

enter-IsTidy : (v : Uuid) (w : Socket) (c : Connections) → IsTidy c → IsTidy (enter v w c).1
unfolding enter
enter-IsTidy v w c tidy u e =
    ground (arith, lookup-put v u (add w (sockets_of v c)) c, tidy u, add_ne_nil w (sockets_of v c))

leave-IsTidy : (v : Uuid) (w : Socket) (c : Connections) → IsTidy c → IsTidy (leave v w c).1
unfolding leave
leave-IsTidy v w c tidy u e = elim (Option-cases (lookup v c)) [
  | inl nothing ↦ ground (arith, nothing, tidy u)
  | inr (ws, found) ↦
      ground (arith, found, tidy u, lookup-remove v u c, lookup-put v u (discard w ws) c)
]

module _ (backend : Backend) where
  pub connections-connect :
      (v : Uuid) (w : Socket) (m : Manager backend)
      → (connect backend v w m).1.connections ≡ (enter v w m.connections).1
  unfolding connect attempt
  connections-connect v w m = ground arith

  pub connections-disconnect :
      (v : Uuid) (w : Socket) (m : Manager backend)
      → (disconnect backend v w m).1.connections ≡ (leave v w m.connections).1
  unfolding disconnect attempt
  connections-disconnect v w m = ground arith

  -- Whatever the backend does, `connect` adds the socket to the user's set and `disconnect` takes it
  -- out, and the sets of all other users stay as they are.
  pub connect-disconnect_sets :
      (u v : Uuid) (w : Socket) (m : Manager backend)
      → (sockets_of u (connect backend v w m).1.connections
          ≡ (if v == u then add w (sockets_of v m.connections) else sockets_of u m.connections))
        × (sockets_of u (disconnect backend v w m).1.connections ≡ (
            if v == u then discard w (sockets_of v m.connections) else sockets_of u m.connections))
  connect-disconnect_sets u v w m = (
    rw (connections-connect v w m) (sockets_of-enter u v w m.connections),
    rw (connections-disconnect v w m) (sockets_of-leave u v w m.connections),
  )

  -- If no user is in the map with an empty set, then neither is one after `connect` or `disconnect`.
  pub connect-disconnect-IsTidy :
      (v : Uuid) (w : Socket) (m : Manager backend)
      → IsTidy m.connections
      → IsTidy (connect backend v w m).1.connections
        × IsTidy (disconnect backend v w m).1.connections
  connect-disconnect-IsTidy v w m tidy = (
    rw (connections-connect v w m) (enter-IsTidy v w m.connections tidy),
    rw (connections-disconnect v w m) (leave-IsTidy v w m.connections tidy),
  )

  -- Without an available backend, and in a map without empty sets, `connect` reports whether the user
  -- had no socket, and `disconnect` whether the user had sockets and has none left.
  pub local_transitions :
      (v : Uuid) (w : Socket) (m : Manager backend)
      → IsTidy m.connections
      → distributed backend m ≡ false
      → ((connect backend v w m).0 ≡ is_empty (sockets_of v m.connections))
        × ((disconnect backend v w m).0 ≡ (
            not (is_empty (sockets_of v m.connections))
            && is_empty (discard w (sockets_of v m.connections))))
  unfolding connect disconnect attempt enter leave
  local_transitions v w m tidy alone = (
    ground arith,
    elim (Option-cases (lookup v m.connections)) [
      | inl nothing ↦ ground (arith, nothing)
      | inr (ws, found) ↦ elim (Bool-cases (is_empty ws)) [
        | inl e ↦ absurd (tidy v (rw (nil_of_is_empty ws e) at found))
        | inr e ↦ ground (arith, found, e)
      ]
    ],
  )
