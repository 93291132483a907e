-- ===== src/Realtime/Redis/Sweeping.antt =====
-- A lease on a user under the commands of `_sweep_presence` of redis_backend.py.
use chatterbox.Prelude.{
  false, ◌<◌, none, refl, ==_iff, [], ◌∷◌, ◌≡◌, ◌≢◌, inl, inr, arith, ◌==◌, Bool-cases,
  Option-cases, is_some,
}
use chatterbox.Prelude.Dict.{nat_eq}
use chatterbox.Models.{Uuid, Time}
use chatterbox.Realtime.SortedSet.{SortedSet}
use chatterbox.Realtime.Redis.{
  Instance, Shared, Sweep, idle, claimed, pruned, found_lease, found_empty, deleted, expired,
  presence_at, prune, online_user_ids, sweep_step, resume, sweep_user, update,
}
-- Whether a sweep stands between a ZRANGE that found no lease on `u` and the DELETE.
use chatterbox.Realtime.Redis.Holding.{dooms, Holds, looks_up-Holds}

module _ (sets : SortedSet) where
  open sets use {Z, score, zcard, zrem, zremrangebyscore}

  state-online :
      (now : Time) (v : Uuid) (s : Shared sets)
      → (online_user_ids sets now (v ∷ []) s).1 ≡ prune sets now v s
  unfolding online_user_ids
  state-online now v s = ground arith

  -- a key with a lease is not found empty
  found-lease :
      (now : Time) (u : Uuid) (i : Instance) (e : Time) (s : Shared sets)
      → now < e
      → Holds sets u i e s
      → sets.zrange_last (presence_at sets now u s) ≢ none
  found-lease now u i e s alive h nothing =
      ground
        (arith, h.scored, h.kept, (sets.zrange_last_none (presence_at sets now u s)).0 nothing i)

  prunes-Holds :
      (cutoff now : Time) (u : Uuid) (i : Instance) (v : Uuid) (e : Time) (s : Shared sets)
      → cutoff < e
      → now < e
      → Holds sets u i e s
      → Holds sets u i e (record s {
        presence = update s.presence v (zremrangebyscore cutoff (presence_at sets now v s));
      })
  prunes-Holds cutoff now u i v e s before alive h = record {
    scored =
        ground (
          arith,
          h.scored,
          h.kept,
          sets.score-zremrangebyscore cutoff i (presence_at sets now v s),
        );
    kept = h.kept;
    spared = h.spared;
  }

  deletes-Holds :
      (u : Uuid) (i : Instance) (v : Uuid) (e : Time) (s : Shared sets)
      → (v == u) ≡ false
      → Holds sets u i e s
      → Holds sets u i e (record s { presence = update s.presence v sets.empty })
  deletes-Holds u i v e s other h = record {
    scored = ground (arith, other, h.scored);
    kept = h.kept;
    spared = h.spared;
  }

  -- A command of a sweep leaves a lease alone, unless it is the DELETE of a key found empty before; and
  -- it does not find the key empty.
  pub sweep_step-Holds :
      (cutoff now : Time) (u : Uuid) (i : Instance) (w : Uuid) (e : Time) (p : Sweep)
      (s : Shared sets)
      → cutoff < e
      → now < e
      → dooms u p ≡ false
      → Holds sets u i e s
      → Holds sets u i e (sweep_step sets cutoff now w p s).1
        × (dooms u (sweep_step sets cutoff now w p s).0 ≡ false)
  unfolding sweep_step
  sweep_step-Holds cutoff now u i w e idle s before alive spared h =
      elim (Bool-cases (is_some (score w s.users))) [
        | inl listed ↦
            rw listed (record { scored = h.scored; kept = h.kept; spared = h.spared }, refl)
        | inr unlisted ↦ rw unlisted (h, refl)
      ]
  sweep_step-Holds cutoff now u i w e (claimed v) s before alive spared h =
      (prunes-Holds cutoff now u i v e s before alive h, refl)
  sweep_step-Holds cutoff now u i w e (pruned v) s before alive spared h =
      elim (Option-cases (sets.zrange_last (presence_at sets now v s))) [
        | inr (last, found) ↦ rw (found, sweep_step) (h, refl)
        | inl nothing ↦ elim (Bool-cases (v == u)) [
          | inr other ↦ rw (nothing, sweep_step) (h, other)
          | inl e' ↦
              (let same : v ≡ u = (==_iff v u).0 e' in
                absurd (found-lease now u i e s alive h (rw (← same) nothing)))
        ]
      ]
  sweep_step-Holds cutoff now u i w e (found_lease v latest) s before alive spared h =
      (record { scored = h.scored; kept = h.kept; spared = h.spared }, refl)
  sweep_step-Holds cutoff now u i w e (found_empty v) s before alive spared h =
      (deletes-Holds u i v e s spared h, refl)
  sweep_step-Holds cutoff now u i w e (deleted v) s before alive spared h =
      (rw (state-online now v s) (looks_up-Holds sets now u i v e s alive h), ground arith)
  sweep_step-Holds cutoff now u i w e (expired v) s before alive spared h = (h, refl)

  resume-Holds :
      (others : Sweep → Shared sets → Shared sets) (now : Time) (u : Uuid) (i : Instance) (e : Time)
      (p : Sweep) (s : Shared sets)
      → ((q : Sweep) (t : Shared sets) → Holds sets u i e t → Holds sets u i e (others q t))
      → now < e
      → Holds sets u i e s × (dooms u p ≡ false)
      → Holds sets u i e (resume sets others now (p, s)).1
        × (dooms u (resume sets others now (p, s)).0 ≡ false)
  resume-Holds others now u i e idle s keep alive h = h
  resume-Holds others now u i e (claimed v) s keep alive h =
      sweep_step-Holds now now u i 0 e (claimed v) _ alive alive h.1 (keep (claimed v) s h.0)
  resume-Holds others now u i e (pruned v) s keep alive h =
      sweep_step-Holds now now u i 0 e (pruned v) _ alive alive h.1 (keep (pruned v) s h.0)
  resume-Holds others now u i e (found_lease v t) s keep alive h =
      sweep_step-Holds now now u i 0 e (found_lease v t) _ alive alive h.1
        (keep (found_lease v t) s h.0)
  resume-Holds others now u i e (found_empty v) s keep alive h =
      sweep_step-Holds now now u i 0 e (found_empty v) _ alive alive h.1
        (keep (found_empty v) s h.0)
  resume-Holds others now u i e (deleted v) s keep alive h =
      sweep_step-Holds now now u i 0 e (deleted v) _ alive alive h.1 (keep (deleted v) s h.0)
  resume-Holds others now u i e (expired v) s keep alive h = h

  pub sweeps-Holds :
      (others : Sweep → Shared sets → Shared sets) (now : Time) (u : Uuid) (i : Instance) (v : Uuid)
      (e : Time) (s : Shared sets)
      → ((q : Sweep) (t : Shared sets) → Holds sets u i e t → Holds sets u i e (others q t))
      → now < e
      → Holds sets u i e s
      → Holds sets u i e (sweep_user sets others now v s).1
  unfolding sweep_user
  sweeps-Holds others now u i v e s keep alive h =
      let go =
        resume-Holds others now u i e _ _ keep alive
          (sweep_step-Holds now now u i v e idle s alive alive refl h) in
      let on = resume-Holds others now u i e _ _ keep alive go in
      let further = resume-Holds others now u i e _ _ keep alive on in
      (resume-Holds others now u i e _ _ keep alive further).0
