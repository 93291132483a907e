-- ===== src/Realtime/RedisBackend/Cluster/Local.antt =====
-- Local deliveries: what they publish, and what every instance sends.
use mathlib.Core.List.{append-nil}
use chatterbox.Prelude.{
  ℕ, Bool, true, List, [], ◌∷◌, ◌≡◌, refl, ap, ◌∙◌, arith, map, filter, inl, inr, Bool-cases,
}
use chatterbox.Config.{Settings}
use chatterbox.Models.{Uuid, Text}
use chatterbox.Realtime.Events.{Event}
use chatterbox.Realtime.SortedSet.{SortedSet}
use chatterbox.Realtime.Redis.{Instance, Shared, Envelope}
use chatterbox.Realtime.Redis
use chatterbox.Realtime.Manager.{
  Backend, Socket, sockets_of, is_empty, attempt, drop_all, send_all, disconnect,
  deliver_to_user_local, deliver_to_users_local,
}
use chatterbox.Realtime.Manager.Delivery.{sent-deliver_to_users}
use chatterbox.Realtime.RedisBackend.{App, redis_backend, deliver_envelope}
use chatterbox.Realtime.RedisBackend.Cluster.{
  sees, deliver_each, deliver_all, serve_if, listens, hear,
}

module _ (sets : SortedSet) (settings : Settings) (typing_member : Uuid → Uuid → ℕ)
    (action_number : Text → ℕ) (is_stale : Socket → Bool) where
  abbrev redis : Backend
  redis = redis_backend sets settings typing_member action_number

  abbrev Here : Type 0
  Here = App sets settings typing_member action_number

  -- a local delivery publishes nothing
  published-disconnect :
      (u : Uuid) (w : Socket) (m : Here)
      → (disconnect redis u w m).1.shared.shared.published ≡ m.shared.shared.published
  unfolding disconnect attempt Redis.presence_disconnect
  published-disconnect u w m = ground arith

  published-drop_all :
      (u : Uuid) (ws : List Socket) (m : Here)
      → (drop_all redis is_stale u ws m).shared.shared.published ≡ m.shared.shared.published
  published-drop_all u [] m = refl
  published-drop_all u (w ∷ ws) m = published-drop_all u ws _ ∙ published-disconnect u w m

  published-send_all :
      (event : Event) (ws : List Socket) (m : Here)
      → (send_all redis is_stale event ws m).shared.shared.published ≡ m.shared.shared.published
  published-send_all event [] m = refl
  published-send_all event (w ∷ ws) m = published-send_all event ws _ ∙ ground arith

  published-deliver_one :
      (u : Uuid) (event : Event) (m : Here)
      → (deliver_to_user_local redis is_stale u event m).shared.shared.published
        ≡ m.shared.shared.published
  unfolding deliver_to_user_local
  published-deliver_one u event m =
      let ws : List Socket = sockets_of u m.connections in
      published-drop_all u (filter is_stale ws) (send_all redis is_stale event ws m)
      ∙ published-send_all event ws m

  pub published-deliver :
      (us : List Uuid) (event : Event) (m : Here)
      → (deliver_to_users_local redis is_stale us event m).shared.shared.published
        ≡ m.shared.shared.published
  unfolding deliver_to_users_local
  published-deliver [] event m = refl
  published-deliver (u ∷ us) event m =
      published-deliver us event (deliver_to_user_local redis is_stale u event m)
      ∙ published-deliver_one u event m

  unfoldable pub sents : List Here → List (List (Socket × Event))
  sents ms = map (λ m. m.sent) ms

  pub nil_of_is_empty : (us : List Uuid) → is_empty us ≡ true → us ≡ []
  nil_of_is_empty [] h = refl
  nil_of_is_empty (u ∷ us) h = cc

  -- the envelope that a send publishes
  abbrev pub envelope : List Uuid → Event → Envelope
  envelope targets event = record { targets = targets; event = event }

  -- what a listener leaves, whether it receives the envelopes or not
  sent-hear :
      (hears : Instance → Bool) (targets : List Uuid) (event : Event) (m : Here)
      → (hear sets settings typing_member action_number is_stale hears
          (envelope targets event ∷ [])
          m).sent
        ≡ serve_if sets settings typing_member action_number is_stale hears targets event m
  unfolding deliver_each deliver_envelope
  sent-hear hears targets event m =
      elim (Bool-cases (listens sets settings typing_member action_number is_stale hears m)) [
        | inl e ↦ rw e (sent-deliver_to_users redis is_stale targets event m)
        | inr e ↦ rw e refl
      ]

  sent-hear_none :
      (hears : Instance → Bool) (m : Here)
      → (hear sets settings typing_member action_number is_stale hears [] m).sent ≡ m.sent
  unfolding deliver_each
  sent-hear_none hears m =
      elim (Bool-cases (listens sets settings typing_member action_number is_stale hears m)) [
        | inl e ↦ rw e refl
        | inr e ↦ rw e refl
      ]

  pub sents-deliver_none :
      (hears : Instance → Bool) (ms : List Here) (s : Shared sets)
      → sents
          (deliver_all sets settings typing_member action_number is_stale hears [] s ms).instances
        ≡ sents ms
  unfolding sents deliver_all deliver_each
  sents-deliver_none hears [] s = refl
  sents-deliver_none hears (m ∷ ms) s =
      let here =
        sent-hear_none hears (sees sets settings typing_member action_number is_stale s m) in
      rw here (ap (λ r. m.sent ∷ r) (sents-deliver_none hears ms _))

  pub sents-deliver_one :
      (hears : Instance → Bool) (targets : List Uuid) (event : Event) (ms : List Here)
      (s : Shared sets)
      → sents
          (deliver_all sets settings typing_member action_number is_stale hears
            (envelope targets event ∷ [])
            s
            ms).instances
        ≡ map (serve_if sets settings typing_member action_number is_stale hears targets event) ms
  unfolding sents deliver_all
  sents-deliver_one hears targets event [] s = refl
  sents-deliver_one hears targets event (m ∷ ms) s =
      let here =
        sent-hear hears targets event
          (sees sets settings typing_member action_number is_stale s m) in
      rw here (
        ap
          (λ r.
            serve_if sets settings typing_member action_number is_stale hears targets event m ∷ r)
          (sents-deliver_one hears targets event ms _))

  serves_nobody :
      (hears : Instance → Bool) (event : Event) (m : Here)
      → serve_if sets settings typing_member action_number is_stale hears [] event m ≡ m.sent
  serves_nobody hears event m =
      elim (Bool-cases (listens sets settings typing_member action_number is_stale hears m)) [
        | inl e ↦ rw e (append-nil m.sent)
        | inr e ↦ rw e refl
      ]

  pub serve_nobody :
      (hears : Instance → Bool) (event : Event) (ms : List Here)
      → map (serve_if sets settings typing_member action_number is_stale hears [] event) ms
        ≡ sents ms
  unfolding sents
  serve_nobody hears event [] = refl
  serve_nobody hears event (m ∷ ms) =
      rw (serves_nobody hears event m) (ap (λ r. m.sent ∷ r) (serve_nobody hears event ms))
