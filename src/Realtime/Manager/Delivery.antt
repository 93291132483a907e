-- ===== src/Realtime/Manager/Delivery.antt =====
-- What a delivery sends, and which sockets it drops.
use mathlib.Core.List.{append_assoc, append-nil}
use chatterbox.Prelude.{
  Bool, true, false, not, ◌&&◌, Option, List, [], ◌∷◌, ◌++◌, map, ◌≡◌, refl, sym, ap, ◌∙◌, inl, inr,
  arith, filter, mem, unique, ◌==◌, ==_iff, ==_self, Bool-cases, All, if◌then◌else◌,
}
use chatterbox.Prelude.Dict.{nat_eq}
use chatterbox.Prelude.Members.{
  mem-filter, filter_cong, filter_nested, mem-All, mem-from_keys, unique-from_keys,
}
use chatterbox.Prelude.Rows.{All-imp}
use chatterbox.Models.{Uuid}
use chatterbox.Realtime.Events.{Event}
use chatterbox.Realtime.Manager.{
  Socket, Connections, Backend, Manager, sockets_of, discard, is_empty, disconnect, attempt,
  distributed, send_all, drop_all, deliver_to_user_local, deliver_to_users_local, targets_of,
  is_excluded, send_to_users,
}
use chatterbox.Realtime.Manager.Sockets.{connect-disconnect_sets}

All-self :
    (p q : Socket → Bool)
    → ((x : Socket) → p x ≡ q x)
    → (xs : List Socket) → All (λ x. p x ≡ q x) xs
All-self p q same [] = tt
All-self p q same (x ∷ xs) = (same x, All-self p q same xs)

module _ (backend : Backend) (is_stale : Socket → Bool) where
  abbrev pub is_live : Socket → Bool
  is_live w = not (is_stale w)

  -- the sends of one event to the live ones of some sockets
  abbrev pub sends : Event → List Socket → List (Socket × Event)
  sends event ws = map (λ w. (w, event)) (filter is_live ws)

  pub sent-send_all :
      (event : Event) (ws : List Socket) (m : Manager backend)
      → send_all backend is_stale event ws m ≡ record m { sent = m.sent ++ sends event ws }
  sent-send_all event [] m = rw append-nil
  sent-send_all event (w ∷ ws) m = elim (Bool-cases (is_stale w)) [
    | inl e ↦ rw e (sent-send_all event ws m)
    | inr e ↦ rw e (
        sent-send_all event ws (record m { sent = m.sent ++ (w, event) ∷ [] })
        ∙ rw (append_assoc m.sent ((w, event) ∷ []) (sends event ws)))
  ]

  sent-disconnect :
      (u : Uuid) (w : Socket) (m : Manager backend) → (disconnect backend u w m).1.sent ≡ m.sent
  unfolding disconnect attempt
  sent-disconnect u w m = ground arith

  sent-drop_all :
      (u : Uuid) (ws : List Socket) (m : Manager backend)
      → (drop_all backend is_stale u ws m).sent ≡ m.sent
  sent-drop_all u [] m = refl
  sent-drop_all u (w ∷ ws) m =
      sent-drop_all u ws (disconnect backend u w m).1 ∙ sent-disconnect u w m

  without : List Socket → List Socket → List Socket
  without ws = filter (λ x. not (mem x ws))

  without_nil : (xs : List Socket) → without [] xs ≡ xs
  unfolding without
  without_nil [] = refl
  without_nil (x ∷ xs) = rw (without_nil xs)

  without-cons :
      (w : Socket) (ws xs : List Socket) → without ws (discard w xs) ≡ without (w ∷ ws) xs
  unfolding without
  without-cons w ws [] = refl
  without-cons w ws (x ∷ xs) = ground (arith, without-cons w ws xs)

  sockets_of-drop_all :
      (v u : Uuid) (ws : List Socket) (m : Manager backend)
      → sockets_of v (drop_all backend is_stale u ws m).connections
        ≡ (if u == v then without ws (sockets_of u m.connections) else sockets_of v m.connections)
  sockets_of-drop_all v u [] m = elim (Bool-cases (u == v)) [
    | inl e ↦
        (let same : u ≡ v = (==_iff u v).0 e in
          rw (same, ==_self v) (sym (without_nil (sockets_of v m.connections))))
    | inr e ↦ rw e refl
  ]
  sockets_of-drop_all v u (w ∷ ws) m = ground (
    arith,
    sockets_of-drop_all v u ws (disconnect backend u w m).1,
    (connect-disconnect_sets backend u u w m).1,
    (connect-disconnect_sets backend v u w m).1,
    ==_self u,
    without-cons w ws (sockets_of u m.connections),
  )

  -- The sockets of a user after a delivery are the live ones.
  without_stale : (ws : List Socket) → without (filter is_stale ws) ws ≡ filter is_live ws
  unfolding without
  without_stale ws =
      filter_cong (λ x. not (mem x (filter is_stale ws))) is_live ws
        (All-imp (λ x. mem x ws ≡ true) (λ x. not (mem x (filter is_stale ws)) ≡ is_live x)
          (λ x e. ground (arith, mem-filter is_stale x ws, e)) ws (mem-All ws))

  pub sockets_of-deliver :
      (v u : Uuid) (event : Event) (m : Manager backend)
      → sockets_of v (deliver_to_user_local backend is_stale u event m).connections ≡ (
          if u == v
          then filter is_live (sockets_of u m.connections)
          else sockets_of v m.connections)
  unfolding deliver_to_user_local
  sockets_of-deliver v u event m =
      let ws : List Socket = sockets_of u m.connections in
      ground (
        arith,
        sent-send_all event ws m,
        sockets_of-drop_all v u (filter is_stale ws) (record m { sent = m.sent ++ sends event ws }),
        without_stale ws,
      )

  sent-deliver :
      (u : Uuid) (event : Event) (m : Manager backend)
      → (deliver_to_user_local backend is_stale u event m).sent
        ≡ m.sent ++ sends event (sockets_of u m.connections)
  unfolding deliver_to_user_local
  sent-deliver u event m =
      let ws : List Socket = sockets_of u m.connections in
      rw (sent-send_all event ws m)
        (sent-drop_all u (filter is_stale ws) (record m { sent = m.sent ++ sends event ws }))

  -- a delivery to one user takes no live socket from another
  live-deliver :
      (v u : Uuid) (event : Event) (m : Manager backend)
      → filter is_live (sockets_of v (deliver_to_user_local backend is_stale u event m).connections)
        ≡ filter is_live (sockets_of v m.connections)
  live-deliver v u event m = elim (Bool-cases (u == v)) [
    | inl e ↦
        (let same : u ≡ v = (==_iff u v).0 e in
          rw same (
            ap (filter is_live) (sockets_of-deliver v v event m ∙ rw (==_self v) refl)
            ∙ filter_nested is_live is_live (sockets_of v m.connections)
            ∙ filter_cong (λ x. is_live x && is_live x) is_live (sockets_of v m.connections)
                (All-self (λ x. is_live x && is_live x) is_live (λ x. ground arith)
                  (sockets_of v m.connections))))
    | inr e ↦ ap (filter is_live) (sockets_of-deliver v u event m ∙ rw e refl)
  ]

  -- the sends to some users, one after the other
  abbrev pub deliveries : Event → List Uuid → Connections → List (Socket × Event)
  deliveries event [] c = []
  deliveries event (u ∷ us) c = sends event (sockets_of u c) ++ deliveries event us c

  deliveries-deliver :
      (u : Uuid) (event later : Event) (us : List Uuid) (m : Manager backend)
      → deliveries later us (deliver_to_user_local backend is_stale u event m).connections
        ≡ deliveries later us m.connections
  deliveries-deliver u event later [] m = refl
  deliveries-deliver u event later (v ∷ us) m =
      rw (live-deliver v u event m, deliveries-deliver u event later us m)

  -- a delivery takes no live socket, so a later one finds the same
  pub deliveries-deliver_to_users :
      (us vs : List Uuid) (event later : Event) (m : Manager backend)
      → deliveries later vs (deliver_to_users_local backend is_stale us event m).connections
        ≡ deliveries later vs m.connections
  unfolding deliver_to_users_local
  deliveries-deliver_to_users [] vs event later m = refl
  deliveries-deliver_to_users (u ∷ us) vs event later m =
      deliveries-deliver_to_users us vs event later
        (deliver_to_user_local backend is_stale u event m)
      ∙ deliveries-deliver u event later vs m

  pub sent-deliver_to_users :
      (us : List Uuid) (event : Event) (m : Manager backend)
      → (deliver_to_users_local backend is_stale us event m).sent
        ≡ m.sent ++ deliveries event us m.connections
  unfolding deliver_to_users_local
  sent-deliver_to_users [] event m = rw append-nil
  sent-deliver_to_users (u ∷ us) event m =
      let m1 : Manager backend = deliver_to_user_local backend is_stale u event m in
      sent-deliver_to_users us event m1
      ∙ rw (sent-deliver u event m, deliveries-deliver u event event us m)
          (append_assoc m.sent (sends event (sockets_of u m.connections))
            (deliveries event us m.connections))

  pub sent_by_choice :
      (us : List Uuid) (event : Event) (m : Manager backend)
      → (if is_empty us then m else deliver_to_users_local backend is_stale us event m).sent
        ≡ m.sent ++ deliveries event us m.connections
  sent_by_choice [] event m = rw append-nil
  sent_by_choice (u ∷ us) event m = sent-deliver_to_users (u ∷ us) event m

  -- Without an available backend, `send_to_users` sends the event to every live socket of every user
  -- listed, the excluded one apart, and to no other socket. A user is served once, however often it
  -- is listed, and the earlier sends stay.
  pub send_to_users_local :
      (user_ids : List Uuid) (event : Event) (exclude : Option Uuid) (m : Manager backend)
      → distributed backend m ≡ false
      → ((send_to_users backend is_stale user_ids event exclude m).sent
          ≡ m.sent ++ deliveries event (targets_of backend is_stale user_ids exclude) m.connections)
        × (unique (targets_of backend is_stale user_ids exclude) ≡ true)
        × ((u : Uuid)
            → mem u (targets_of backend is_stale user_ids exclude)
              ≡ (mem u user_ids && not (is_excluded backend is_stale exclude u)))
  unfolding send_to_users attempt
  send_to_users_local user_ids event exclude m alone =
      let listed : List Uuid =
        filter (λ u. not (is_excluded backend is_stale exclude u)) user_ids in
      let p : Uuid → Bool = λ u. not (is_excluded backend is_stale exclude u) in
      (
        rw alone (sent_by_choice (targets_of backend is_stale user_ids exclude) event m),
        unique-from_keys [] listed,
        λ u. ground (arith, mem-from_keys u [] listed, mem-filter p u user_ids),
      )
