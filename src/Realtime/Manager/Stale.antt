-- ===== src/Realtime/Manager/Stale.antt =====
-- What a delivery to stale sockets does to the connections.
use chatterbox.Prelude.{
  Bool, true, false, List, [], ◌∷◌, ◌++◌, ◌≡◌, refl, ◌∙◌, inl, inr, arith, filter, ==_self,
  Option-cases, All,
}
use chatterbox.Prelude.Dict.{lookup, nat_eq}
use chatterbox.Models.{Uuid}
use chatterbox.Realtime.Events.{Event}
use chatterbox.Realtime.Manager.{
  Socket, Backend, Manager, sockets_of, leave, disconnect, attempt, drop_all, deliver_to_user_local,
}
use chatterbox.Realtime.Manager.Sockets.{IsTidy, connect-disconnect-IsTidy}
use chatterbox.Realtime.Manager.Delivery.{is_live, sends, sent-send_all, sockets_of-deliver}

module _ (backend : Backend) (is_stale : Socket → Bool) where
  drop_all-IsTidy :
      (u : Uuid) (ws : List Socket) (m : Manager backend)
      → IsTidy m.connections
      → IsTidy (drop_all backend is_stale u ws m).connections
  drop_all-IsTidy u [] m tidy = tidy
  drop_all-IsTidy u (w ∷ ws) m tidy =
      drop_all-IsTidy u ws (disconnect backend u w m).1
        (connect-disconnect-IsTidy backend u w m tidy).1

  -- A delivery leaves no user in the map with an empty set.
  pub deliver-IsTidy :
      (u : Uuid) (event : Event) (m : Manager backend)
      → IsTidy m.connections
      → IsTidy (deliver_to_user_local backend is_stale u event m).connections
  unfolding deliver_to_user_local
  deliver-IsTidy u event m tidy =
      let ws : List Socket = sockets_of u m.connections in
      rw (sent-send_all backend is_stale event ws m) (
        drop_all-IsTidy u (filter is_stale ws)
          (record m { sent = m.sent ++ sends backend is_stale event ws }) tidy)

  none_live :
      (ws : List Socket)
      → All (λ x. is_stale x ≡ true) ws
      → filter (is_live backend is_stale) ws ≡ []
  none_live [] h = refl
  none_live (w ∷ ws) h = ground (arith, h.0, none_live ws h.1)

  absent_reports_nothing :
      (u : Uuid) (w : Socket) (m : Manager backend)
      → IsTidy m.connections
      → sockets_of u m.connections ≡ []
      → (disconnect backend u w m).0 ≡ false
  unfolding disconnect attempt leave
  absent_reports_nothing u w m tidy gone = elim (Option-cases (lookup u m.connections)) [
    | inl nothing ↦ ground (arith, nothing)
    | inr (ws, found) ↦ ground (arith, found, gone, tidy u)
  ]

  -- The transition that stale sockets hide: if all sockets of a user are stale, in a map without empty
  -- sets, a delivery leaves the user without a socket, and a `disconnect` of any socket of the user
  -- then reports no transition.
  pub stale_delivery_hides_offline :
      (u : Uuid) (w : Socket) (event : Event) (m : Manager backend)
      → IsTidy m.connections
      → All (λ x. is_stale x ≡ true) (sockets_of u m.connections)
      → (sockets_of u (deliver_to_user_local backend is_stale u event m).connections ≡ [])
        × ((disconnect backend u w (deliver_to_user_local backend is_stale u event m)).0 ≡ false)
  stale_delivery_hides_offline u w event m tidy stale =
      let gone : sockets_of u (deliver_to_user_local backend is_stale u event m).connections ≡ [] =
        sockets_of-deliver backend is_stale u u event m
        ∙ rw (==_self u) (none_live (sockets_of u m.connections) stale) in
      (
        gone,
        absent_reports_nothing u w (deliver_to_user_local backend is_stale u event m)
            (deliver-IsTidy u event m tidy) gone,
      )
