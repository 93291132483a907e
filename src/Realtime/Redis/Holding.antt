-- ===== src/Realtime/Redis/Holding.antt =====
-- A lease on a user under the presence scripts of redis_backend.py.
use chatterbox.Prelude.{
  Bool, false, ◌+◌, ◌≤◌, ◌<◌, some, [], ◌∷◌, ◌≡◌, ◌≢◌, inl, inr, arith, ◌==◌, ==_self, Bool-cases,
}
use chatterbox.Prelude.Dict.{nat_eq}
use chatterbox.Models.{Uuid, Time}
use chatterbox.Realtime.SortedSet.{SortedSet}
use chatterbox.Realtime.Redis.{
  Instance, Shared, Sweep, found_empty, presence_at, presence_connect, presence_disconnect, prune,
  online_user_ids,
}
use chatterbox.Realtime.Redis.Leases.{zcard_pruned}

-- Whether a sweep stands between a ZRANGE that found no lease on `u` and the DELETE.
-- Whether a sweep stands between a ZRANGE that found no lease on `u` and the DELETE.
abbrev pub dooms : Uuid → Sweep → Bool
dooms u (found_empty v) = v == u
dooms u _ = false

module _ (sets : SortedSet) where
  open sets use {Z, score, zcard, zrem, zremrangebyscore}

  -- Instance `i` has a lease on `u` until `e`, in a key that EXPIRE leaves alone until then and that no
  -- sweep is about to delete.
  pub record Holds (u : Uuid) (i : Instance) (e : Time) (s : Shared sets) : Type 0 where
    pub scored : score i (s.presence u) ≡ some e
    pub kept : e ≤ s.presence_expiry u
    pub spared : (j : Instance) → dooms u (s.sweeping j) ≡ false

  pub connects-Holds :
      (ttl now : Time) (u : Uuid) (i j : Instance) (v : Uuid) (e : Time) (s : Shared sets)
      → now < e
      → e ≤ now + ttl
      → j ≢ i
      → Holds u i e s
      → Holds u i e (presence_connect sets ttl now j v s).1
  unfolding presence_connect
  connects-Holds ttl now u i j v e s alive bound ne h =
      let z0 : Z = presence_at sets now v s in
      record {
        scored = ground (
          arith,
          h.scored,
          h.kept,
          sets.score-zadd (now + ttl) j i (zremrangebyscore now z0),
          sets.score-zremrangebyscore now i z0,
        );
        kept = ground (arith, h.kept);
        spared = h.spared;
      }

  pub disconnects-Holds :
      (now : Time) (u : Uuid) (i j : Instance) (v : Uuid) (e : Time) (s : Shared sets)
      → now < e
      → j ≢ i
      → Holds u i e s
      → Holds u i e (presence_disconnect sets now j v s).1
  unfolding presence_disconnect
  disconnects-Holds now u i j v e s alive ne h =
      let z0 : Z = presence_at sets now v s in
      let z : Z = zremrangebyscore now (zrem j z0) in
      elim (Bool-cases (zcard z == 0)) [
        | inl none_left ↦ record {
          scored = ground (
            arith,
            none_left,
            h.scored,
            h.kept,
            (zcard_pruned sets now (zrem j z0)).0 none_left i,
            sets.score-zrem j i z0,
          );
          kept = ground (arith, none_left, h.kept);
          spared = ground (arith, none_left, h.spared);
        }
        | inr some_left ↦ record {
          scored = ground (
            arith,
            some_left,
            h.scored,
            h.kept,
            sets.score-zrem j i z0,
            sets.score-zremrangebyscore now i (zrem j z0),
          );
          kept = ground (arith, some_left, h.kept);
          spared = ground (arith, some_left, h.spared);
        }
      ]

  pub looks_up-Holds :
      (now : Time) (u : Uuid) (i : Instance) (v : Uuid) (e : Time) (s : Shared sets)
      → now < e
      → Holds u i e s
      → Holds u i e (prune sets now v s)
  unfolding prune
  looks_up-Holds now u i v e s alive h = record {
    scored =
        ground
          (arith, h.scored, h.kept, sets.score-zremrangebyscore now i (presence_at sets now v s));
    kept = h.kept;
    spared = h.spared;
  }

  pub granted :
      (ttl start : Time) (u : Uuid) (i : Instance) (s : Shared sets)
      → ((j : Instance) → dooms u (s.sweeping j) ≡ false)
      → Holds u i (start + ttl) (presence_connect sets ttl start i u s).1
  unfolding presence_connect
  granted ttl start u i s spared = record {
    scored = ground (
      arith,
      ==_self u,
      sets.score-zadd (start + ttl) i i (zremrangebyscore start (presence_at sets start u s)),
    );
    kept = ground (arith, ==_self u);
    spared = spared;
  }

  pub online_of_Holds :
      (now : Time) (u : Uuid) (i : Instance) (e : Time) (s : Shared sets)
      → now < e
      → Holds u i e s
      → (online_user_ids sets now (u ∷ []) s).0 ≡ u ∷ []
  unfolding online_user_ids prune
  online_of_Holds now u i e s alive h =
      elim (Bool-cases (zcard (zremrangebyscore now (presence_at sets now u s)) == 0)) [
        | inl gone ↦
            ground
              (arith, h.scored, h.kept, (zcard_pruned sets now (presence_at sets now u s)).0 gone i)
        | inr left ↦ ground (arith, ==_self u, left)
      ]
