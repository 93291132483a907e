-- ===== src/Realtime/RedisBackend/Maintenance/Heartbeats.antt =====
-- The rounds of the maintenance and the lease of a user who stays connected to one instance.
use chatterbox.Prelude.{
  ℕ, ◌+◌, ◌≤◌, ◌<◌, Bool, true, false, List, [], ◌∷◌, ◌≡◌, refl, ◌∙◌, ◌≢◌, arith, mem, inl, inr,
  Bool-cases, Option-cases, is_some, ◌==◌, ==_iff,
}
use chatterbox.Prelude.Dict.{lookup, remove, nat_eq}
use chatterbox.Models.{Uuid, Time}
use chatterbox.Realtime.SortedSet.{SortedSet}
use chatterbox.Realtime.Redis.{
  Instance, Shared, Sweep, Envelope, presence_connect, publish_each, take_expired, sweep_typing,
  sweep_user, sweep_each,
}
use chatterbox.Realtime.Redis.Holding.{dooms, Holds, granted}
use chatterbox.Realtime.Redis.Sweeping.{sweeps-Holds}
use chatterbox.Realtime.Redis.Online.{Action, IsOthers, act, act-Holds, run}
use chatterbox.Realtime.RedisBackend.Maintenance.{heartbeat, sweep_typing_if}

module _ (sets : SortedSet) where
  open sets use {Z, score, zremrangebyscore}

  -- the instance's own heartbeat for another user
  beats_other-Holds :
      (ttl now : Time) (u v : Uuid) (i j : Instance) (e : Time) (s : Shared sets)
      → v ≢ u
      → Holds sets u i e s
      → Holds sets u i e (presence_connect sets ttl now j v s).1
  unfolding presence_connect
  beats_other-Holds ttl now u v i j e s other h = record {
    scored = ground (arith, other, h.scored);
    kept = ground (arith, other, h.kept);
    spared = h.spared;
  }

  beats_on-Holds :
      (ttl now : Time) (u : Uuid) (i : Instance) (us : List Uuid) (s : Shared sets)
      → Holds sets u i (now + ttl) s
      → Holds sets u i (now + ttl) (heartbeat sets ttl now i us s)
  unfolding heartbeat
  beats_on-Holds ttl now u i [] s h = h
  beats_on-Holds ttl now u i (v ∷ us) s h =
      beats_on-Holds ttl now u i us (presence_connect sets ttl now i v s).1
        (elim (Bool-cases (v == u)) [
          | inl e ↦
              (let same : v ≡ u = (==_iff v u).0 e in rw same (granted sets ttl now u i s h.spared))
          | inr e ↦
              beats_other-Holds ttl now u v i i (now + ttl) s (λ same. ground (arith, e, same)) h
        ])

  -- a heartbeat renews the lease of every user connected here
  pub beats-Holds :
      (ttl now : Time) (u : Uuid) (i : Instance) (us : List Uuid) (s : Shared sets)
      → mem u us ≡ true
      → ((j : Instance) → dooms u (s.sweeping j) ≡ false)
      → Holds sets u i (now + ttl) (heartbeat sets ttl now i us s)
  unfolding heartbeat presence_connect
  beats-Holds ttl now u i [] s listed spared = absurd cc
  beats-Holds ttl now u i (v ∷ us) s listed spared = elim (Bool-cases (v == u)) [
    | inl e ↦
        (let same : v ≡ u = (==_iff v u).0 e in
          beats_on-Holds ttl now u i us (presence_connect sets ttl now i v s).1
            (rw same (granted sets ttl now u i s spared)))
    | inr e ↦
        beats-Holds ttl now u i us (presence_connect sets ttl now i v s).1
          (ground (arith, e, listed)) spared
  ]

  -- the typing sweep does not touch the presence
  abbrev SamePresence : Shared sets → Shared sets → Type 0
  SamePresence s t =
      (t.presence ≡ s.presence)
      × (t.presence_expiry ≡ s.presence_expiry)
      × (t.sweeping ≡ s.sweeping)

  take_expired-SamePresence :
      (ms : List ℕ) (s : Shared sets) → SamePresence s (take_expired sets ms s).1
  take_expired-SamePresence [] s = (refl, refl, refl)
  take_expired-SamePresence (m ∷ ms) s =
      let s1 : Shared sets = record s {
        typing_expirations = sets.zrem m s.typing_expirations;
        typing_data = remove m s.typing_data;
      } in
      elim (Bool-cases (is_some (score m s.typing_expirations))) [
        | inr e ↦ rw e (take_expired-SamePresence ms s)
        | inl e ↦ elim (Option-cases (lookup m s.typing_data)) [
          | inl nothing ↦ rw (e, nothing) (take_expired-SamePresence ms s1)
          | inr (d, found) ↦ rw (e, found) (take_expired-SamePresence ms s1)
        ]
      ]

  publish_each-SamePresence :
      (ds : List Envelope) (s : Shared sets) → SamePresence s (publish_each sets ds s)
  publish_each-SamePresence [] s = (refl, refl, refl)
  publish_each-SamePresence (d ∷ ds) s = publish_each-SamePresence ds _

  typing-SamePresence :
      (b : Bool) (now : Time) (s : Shared sets) → SamePresence s (sweep_typing_if sets b now s)
  unfolding sweep_typing_if sweep_typing
  typing-SamePresence true now s =
      let (found, s1) = take_expired sets (sets.zrangebyscore now 100 s.typing_expirations) s in
      let (same, expiry, stands) = publish_each-SamePresence found s1 in
      let (same1, expiry1, stands1) =
        take_expired-SamePresence (sets.zrangebyscore now 100 s.typing_expirations) s in
      (same ∙ same1, expiry ∙ expiry1, stands ∙ stands1)
  typing-SamePresence false now s =
      take_expired-SamePresence (sets.zrangebyscore now 100 s.typing_expirations) s

  pub typing-Holds :
      (b : Bool) (now : Time) (u : Uuid) (i : Instance) (e : Time) (s : Shared sets)
      → Holds sets u i e s
      → Holds sets u i e (sweep_typing_if sets b now s)
  typing-Holds b now u i e s h =
      let (same, expiry, stands) = typing-SamePresence b now s in
      record { scored = rw same h.scored; kept = rw expiry h.kept; spared = rw stands h.spared }

  pub sweep_each-Holds :
      (others : Sweep → Shared sets → Shared sets) (now : Time) (u : Uuid) (i : Instance) (e : Time)
      (vs : List Uuid) (s : Shared sets)
      → ((q : Sweep) (t : Shared sets) → Holds sets u i e t → Holds sets u i e (others q t))
      → now < e
      → Holds sets u i e s
      → Holds sets u i e (sweep_each sets others now vs s).1
  unfolding sweep_each
  sweep_each-Holds others now u i e [] s keep alive h = h
  sweep_each-Holds others now u i e (v ∷ vs) s keep alive h =
      let rest =
        sweep_each-Holds others now u i e vs _ keep alive
          (sweeps-Holds sets others now u i v e s keep alive h) in
      elim (Bool-cases (sweep_user sets others now v s).0) [ inl e ↦ rw e rest | inr e ↦ rw e rest ]

  -- some steps that others take no later than `gap` after a time
  abbrev pub IsTimely : Time → Time → Uuid → Instance → List (Time × Action sets) → Type 0
  IsTimely gap start u i [] = Unit
  IsTimely gap start u i ((now, a) ∷ rest) =
      (start ≤ now) × (now ≤ start + gap) × IsOthers sets u i a × IsTimely gap start u i rest

  pub run_timely-Holds :
      (ttl gap start e : Time) (u : Uuid) (i : Instance) (steps : List (Time × Action sets))
      (s : Shared sets)
      → start + gap < e
      → e ≤ start + ttl
      → IsTimely gap start u i steps
      → Holds sets u i e s
      → Holds sets u i e (run sets ttl steps s)
  unfolding run
  run_timely-Holds ttl gap start e u i [] s alive bound timely h = h
  run_timely-Holds ttl gap start e u i ((now, a) ∷ rest) s alive bound timely h =
      run_timely-Holds ttl gap start e u i rest (act sets ttl now a s) alive bound timely.3 (
        act-Holds sets ttl now a u i e s (omega (arith, alive, timely.1))
          (omega (arith, bound, timely.0)) timely.2 h)
