-- ===== src/Realtime/Redis/Online.antt =====
-- Leases under the steps of several instances (redis_backend.py).
use chatterbox.Prelude.{
  false, ◌+◌, ◌-◌, ◌≤◌, ◌<◌, List, [], ◌∷◌, ◌≡◌, ◌≢◌, inl, inr, arith, ◌==◌, Bool-cases,
}
use chatterbox.Prelude.Dict.{nat_eq}
use chatterbox.Models.{Uuid, Time}
use chatterbox.Realtime.SortedSet.{SortedSet}
use chatterbox.Realtime.Redis.{
  Instance, Shared, presence_connect, presence_disconnect, prune, online_user_ids, sweep_step,
  update,
}
-- Whether a sweep stands between a ZRANGE that found no lease on `u` and the DELETE.
use chatterbox.Realtime.Redis.Holding.{
  dooms, Holds, connects-Holds, disconnects-Holds, looks_up-Holds, granted, online_of_Holds,
}
use chatterbox.Realtime.Redis.Sweeping.{sweep_step-Holds}

module _ (sets : SortedSet) where
  open sets use {Z, score, zcard, zrem, zremrangebyscore}

  -- what an instance may do to the shared presence at a moment
  pub data Action : Type 0 where
    connects disconnects : Instance → Uuid → Action
    looks_up : Uuid → Action
    -- the next command of the instance's sweep, which read the clock some time ago, for the user that
    -- it takes up if it is between two users
    sweeps : Instance → Time → Uuid → Action

  pub act : Time → Time → Action → Shared sets → Shared sets
  act ttl now (connects j v) s = (presence_connect sets ttl now j v s).1
  act ttl now (disconnects j v) s = (presence_disconnect sets now j v s).1
  act ttl now (looks_up v) s = prune sets now v s
  act ttl now (sweeps j ago v) s =
      let (p, s1) = sweep_step sets (now - ago) now v (s.sweeping j) s in
      record s1 { sweeping = update s1.sweeping j p }

  -- not a call for `u` by `i` itself
  abbrev pub IsOthers : Uuid → Instance → Action → Type 0
  IsOthers u i (connects j v) = j ≢ i
  IsOthers u i (disconnects j v) = j ≢ i
  IsOthers u i (looks_up v) = Unit
  IsOthers u i (sweeps j ago v) = Unit

  advances-Holds :
      (cutoff now : Time) (u : Uuid) (i j : Instance) (v : Uuid) (e : Time) (s : Shared sets)
      → cutoff < e
      → now < e
      → Holds sets u i e s
      → let (p, s1) = sweep_step sets cutoff now v (s.sweeping j) s in
        Holds sets u i e (record s1 { sweeping = update s1.sweeping j p })
  advances-Holds cutoff now u i j v e s before alive h =
      let (k, spared) =
        sweep_step-Holds sets cutoff now u i v e (s.sweeping j) s before alive (h.spared j) h in
      record {
        scored = k.scored;
        kept = k.kept;
        spared = λ m. elim (Bool-cases (j == m)) [
          | inl same ↦ rw same spared
          | inr other ↦ rw other (k.spared m)
        ];
      }

  pub act-Holds :
      (ttl now : Time) (a : Action) (u : Uuid) (i : Instance) (e : Time) (s : Shared sets)
      → now < e
      → e ≤ now + ttl
      → IsOthers u i a
      → Holds sets u i e s
      → Holds sets u i e (act ttl now a s)
  unfolding act
  act-Holds ttl now (connects j v) u i e s alive bound ne h =
      connects-Holds sets ttl now u i j v e s alive bound ne h
  act-Holds ttl now (disconnects j v) u i e s alive bound ne h =
      disconnects-Holds sets now u i j v e s alive ne h
  act-Holds ttl now (looks_up v) u i e s alive bound ne h =
      looks_up-Holds sets now u i v e s alive h
  act-Holds ttl now (sweeps j ago v) u i e s alive bound ne h =
      advances-Holds (now - ago) now u i j v e s (omega (arith, alive)) alive h

  -- a schedule: what the instances do, and when
  unfoldable pub run : Time → List (Time × Action) → Shared sets → Shared sets
  run ttl [] s = s
  run ttl ((now, a) ∷ rest) s = run ttl rest (act ttl now a s)

  -- every step lies in the `ttl` from `start` on, and none is the instance's own
  abbrev pub IsForeign : Time → Time → Uuid → Instance → List (Time × Action) → Type 0
  IsForeign ttl start u i [] = Unit
  IsForeign ttl start u i ((now, a) ∷ rest) =
      (start ≤ now) × (now < start + ttl) × IsOthers u i a × IsForeign ttl start u i rest

  pub run-Holds :
      (ttl start : Time) (u : Uuid) (i : Instance) (steps : List (Time × Action)) (s : Shared sets)
      → IsForeign ttl start u i steps
      → Holds sets u i (start + ttl) s
      → Holds sets u i (start + ttl) (run ttl steps s)
  unfolding run
  run-Holds ttl start u i [] s f h = h
  run-Holds ttl start u i ((now, a) ∷ rest) s f h =
      run-Holds ttl start u i rest (act ttl now a s) f.3
        (act-Holds ttl now a u i (start + ttl) s f.1 (omega (arith, f.0)) f.2 h)

  -- A user stays online for `ttl` after a heartbeat: if no sweep stands between a lookup that found
  -- no lease on the user and its DELETE when an instance renews its lease, then whatever the other
  -- instances connect and disconnect, whoever looks up, and whatever commands the sweeps of any
  -- instances, begun before or after, send within that time, interleaved in any order, a lookup
  -- within it finds the user online.
  pub online_for_ttl :
      (ttl start now : Time) (u : Uuid) (i : Instance) (steps : List (Time × Action))
      (s : Shared sets)
      → ((j : Instance) → dooms u (s.sweeping j) ≡ false)
      → IsForeign ttl start u i steps
      → now < start + ttl
      → (online_user_ids sets now
          (u ∷ [])
          (run ttl steps (presence_connect sets ttl start i u s).1)).0
        ≡ u ∷ []
  online_for_ttl ttl start now u i steps s spared foreign alive =
      online_of_Holds sets now u i (start + ttl) _ alive
        (run-Holds ttl start u i steps _ foreign (granted sets ttl start u i s spared))
