-- ===== src/Realtime/RedisBackend/Maintenance/Liveness.antt =====
-- A user who stays connected to an instance that reaches Redis stays online.
use chatterbox.Prelude.{
  ℕ, ◌+◌, ◌*◌, ◌≤◌, ◌<◌, Bool, true, false, List, [], ◌∷◌, ◌≡◌, refl, arith, leb, mem, inl, inr,
  Bool-cases, if◌then◌else◌,
}
use chatterbox.Prelude.Dict.{nat_eq}
use chatterbox.Config.{Settings}
use chatterbox.Models.{Uuid, Time, Text}
use chatterbox.Realtime.SortedSet.{SortedSet}
use chatterbox.Realtime.Redis.{
  Instance, Shared, Sweep, presence_connect, sweep_presence, online_user_ids,
}
use chatterbox.Realtime.Redis.Holding.{dooms, Holds, granted, online_of_Holds}
use chatterbox.Realtime.Redis.Online.{Action, run}
use chatterbox.Realtime.RedisBackend.{Node}
use chatterbox.Realtime.RedisBackend.Maintenance.{heartbeat, maintain, sweep_typing_if}
use chatterbox.Realtime.RedisBackend.Maintenance.Heartbeats.{
  IsTimely, beats-Holds, typing-Holds, sweep_each-Holds, run_timely-Holds,
}

module _ (sets : SortedSet) (settings : Settings) (typing_member : Uuid → Uuid → ℕ)
    (action_number : Text → ℕ) where
  abbrev Here : Type 0
  Here = Node sets settings typing_member action_number

  abbrev pub ttl : Time
  ttl = settings.presence_ttl_seconds * 1_000_000

  abbrev pub heart : Time
  heart = settings.presence_heartbeat_seconds * 1_000_000

  -- A round of the maintenance: its time, the users connected here, and what others do while its sweep
  -- stands somewhere and after the round.
  pub record Round : Type 0 where
    pub at : Time
    pub local_user_ids : List Uuid
    pub meanwhile : Sweep → List (Time × Action sets)
    pub after : List (Time × Action sets)

  pub round : Round → Time × Here → Time × Here
  round r (next, n) =
      let (_, next1, n1) =
        maintain sets settings typing_member action_number (λ p. run sets ttl (r.meanwhile p))
          r.local_user_ids (next, record n { now = r.at }) in
      (next1, record n1 { shared = run sets ttl r.after n1.shared })

  pub rounds : List Round → Time × Here → Time × Here
  unfolding round
  rounds [] s = s
  rounds (r ∷ rs) s = rounds rs (round r s)

  -- each round comes at most `gap` after the one before, the user is connected in all of them, and
  -- what happens in between is timely
  abbrev pub IsSchedule : Time → Time → Uuid → Instance → List Round → Type 0
  IsSchedule gap start u i [] = Unit
  IsSchedule gap start u i (r ∷ rs) =
      (start ≤ r.at)
      × (r.at ≤ start + gap)
      × (mem u r.local_user_ids ≡ true)
      × ((p : Sweep) → IsTimely sets gap r.at u i (r.meanwhile p))
      × IsTimely sets gap r.at u i r.after
      × IsSchedule gap r.at u i rs

  -- the time of the last round
  abbrev pub last_at : Time → List Round → Time
  last_at start [] = start
  last_at start (r ∷ rs) = last_at r.at rs

  -- At a time, the user has a lease until `e`, and the next heartbeat is due before it ends.
  record Beating (gap start : Time) (u : Uuid) (i : Instance) (next : Time) (n : Here)
      : Type 0 where
    until : Time
    holds : Holds sets u i until n.shared
    due : next + gap ≤ until
    alive : start + gap < until
    bound : until ≤ start + ttl
    answers : n.reachable ≡ true
    here : n.instance_id ≡ i

  -- what a round does to the shared state after its heartbeats
  swept-Holds :
      (gap : Time) (u : Uuid) (i : Instance) (e : Time) (b : Bool) (r : Round) (s : Shared sets)
      → r.at + gap < e
      → e ≤ r.at + ttl
      → ((p : Sweep) → IsTimely sets gap r.at u i (r.meanwhile p))
      → IsTimely sets gap r.at u i r.after
      → Holds sets u i e s
      → Holds sets u i e (
          run sets ttl r.after
            (sweep_presence sets
              (λ p. run sets ttl (r.meanwhile p))
              r.at
              (sweep_typing_if sets b r.at s)).1)
  unfolding sweep_presence
  swept-Holds gap u i e b r s alive bound meanwhile after h =
      let typed : Shared sets = sweep_typing_if sets b r.at s in
      let due : List Uuid = sets.zrangebyscore r.at 100 typed.users in
      run_timely-Holds sets ttl gap r.at e u i r.after _ alive bound after (
        sweep_each-Holds sets (λ p. run sets ttl (r.meanwhile p)) r.at u i e due typed
          (λ p t.
            run_timely-Holds sets ttl gap r.at e u i (r.meanwhile p) t alive bound (meanwhile p))
          (omega (arith, alive)) (typing-Holds sets b r.at u i e s h))

  -- a round where Redis answers, with what the heartbeats left
  after_round : Round → Here → Shared sets → Here
  after_round r n s1 = record n {
    now = r.at;
    shared =
        run sets ttl r.after
          (sweep_presence sets (λ p. run sets ttl (r.meanwhile p)) r.at
            (sweep_typing_if sets n.is_available r.at s1)).1;
  }

  round_answered :
      (r : Round) (next : Time) (n : Here)
      → n.reachable ≡ true
      → round r (next, n) ≡ (
          if leb next r.at
          then (
            r.at + heart,
            after_round r n (heartbeat sets ttl r.at n.instance_id r.local_user_ids n.shared),
          )
          else (next, after_round r n n.shared))
  unfolding round maintain after_round
  round_answered r next n answers = elim (Bool-cases (leb next r.at)) [
    | inl e ↦ rw (e, answers) refl
    | inr e ↦ rw (e, answers) refl
  ]

  round-Beating :
      (gap start : Time) (u : Uuid) (i : Instance) (next : Time) (n : Here) (r : Round)
      → 0 < heart
      → heart + gap ≤ ttl
      → start ≤ r.at
      → r.at ≤ start + gap
      → mem u r.local_user_ids ≡ true
      → ((p : Sweep) → IsTimely sets gap r.at u i (r.meanwhile p))
      → IsTimely sets gap r.at u i r.after
      → Beating gap start u i next n
      → Beating gap r.at u i (round r (next, n)).0 (round r (next, n)).1
  unfolding after_round
  round-Beating gap start u i next n r beat fits later soon listed meanwhile after h =
      elim (Bool-cases (leb next r.at)) [
        | inl due ↦
            rw (round_answered r next n h.answers, due)
              (record {
                until = r.at + ttl;
                holds =
                    swept-Holds gap u i (r.at + ttl) n.is_available r _ (omega (arith, beat, fits))
                      (omega arith) meanwhile after
                      (rw h.here (
                        beats-Holds sets ttl r.at u i r.local_user_ids n.shared listed
                          h.holds.spared));
                due = omega (arith, fits);
                alive = omega (arith, beat, fits);
                bound = omega arith;
                answers = h.answers;
                here = h.here;
              })
        | inr early ↦
            rw (round_answered r next n h.answers, early)
              (record {
                until = h.until;
                holds =
                    swept-Holds gap u i h.until n.is_available r n.shared
                      (ground (arith, early, h.due)) (omega (arith, h.bound, later)) meanwhile after
                      h.holds;
                due = h.due;
                alive = ground (arith, early, h.due);
                bound = omega (arith, h.bound, later);
                answers = h.answers;
                here = h.here;
              })
      ]

  rounds-Beating :
      (gap start : Time) (u : Uuid) (i : Instance) (rs : List Round) (next : Time) (n : Here)
      → 0 < heart
      → heart + gap ≤ ttl
      → IsSchedule gap start u i rs
      → Beating gap start u i next n
      → Beating gap (last_at start rs) u i (rounds rs (next, n)).0 (rounds rs (next, n)).1
  unfolding rounds
  rounds-Beating gap start u i [] next n beat fits planned h = h
  rounds-Beating gap start u i (r ∷ rs) next n beat fits
        (later, soon, listed, meanwhile, after, planned) h =
      rounds-Beating gap r.at u i rs (round r (next, n)).0 (round r (next, n)).1 beat fits planned
        (round-Beating gap start u i next n r beat fits later soon listed meanwhile after h)

  -- If the rounds of an instance's maintenance come at most `gap` after each other, Redis answers
  -- them, and a heartbeat interval with such a gap fits into the time to live, then a user who
  -- connects there, no longer than an interval before the next heartbeat is due and while no sweep
  -- stands between a lookup that found no lease on the user and its DELETE, and who stays connected,
  -- is online at every moment up to `gap` after the last round, whatever the other instances connect
  -- and disconnect, and whatever lookups and commands of sweeps come between the rounds and between
  -- the commands of the instance's own sweep.
  pub stays_online :
      (gap start now : Time) (u : Uuid) (rs : List Round) (next : Time) (n : Here)
      → n.reachable ≡ true
      → 0 < heart
      → heart + gap ≤ ttl
      → next ≤ start + heart
      → ((j : Instance) → dooms u (n.shared.sweeping j) ≡ false)
      → IsSchedule gap start u n.instance_id rs
      → now ≤ last_at start rs + gap
      → let connected : Here = record n {
        shared = (presence_connect sets ttl start n.instance_id u n.shared).1;
      } in
        (online_user_ids sets now (u ∷ []) (rounds rs (next, connected)).1.shared).0 ≡ u ∷ []
  stays_online gap start now u rs next n answers beat fits due spared planned soon =
      let connected : Here = record n {
        shared = (presence_connect sets ttl start n.instance_id u n.shared).1;
      } in
      let b : Beating gap (last_at start rs) u n.instance_id (rounds rs (next, connected)).0
          (rounds rs (next, connected)).1 =
        rounds-Beating gap start u n.instance_id rs next connected beat fits planned (record {
          until = start + ttl;
          holds = granted sets ttl start u n.instance_id n.shared spared;
          due = omega (arith, due, fits);
          alive = omega (arith, beat, fits);
          bound = omega arith;
          answers = answers;
          here = refl;
        }) in
      online_of_Holds sets now u n.instance_id b.until _ (omega (arith, b.alive, soon)) b.holds
