-- ===== src/Realtime/Redis/Leases.antt =====
-- The presence scripts of redis_backend.py as operations on leases.
use chatterbox.Prelude.{
  ◌+◌, ◌<◌, true, ◌&&◌, Option, none, some, ◌≡◌, sym, ◌∙◌, ◌↔◌, inl, inr, arith, ◌==◌, ==_iff,
  Bool-cases, if◌then◌else◌,
}
use chatterbox.Models.{Uuid, Time}
use chatterbox.Realtime.SortedSet.{SortedSet, kept_above}
use chatterbox.Realtime.Redis.{Instance, Shared, presence_at, presence_connect, presence_disconnect}

module _ (sets : SortedSet) where
  open sets use {Z, score, zcard, zrem, zremrangebyscore}

  -- The end of the lease of an instance on a user, if it has one at a time.
  abbrev pub lease : Time → Uuid → Instance → Shared sets → Option Time
  lease now user_id i s = kept_above now (score i (presence_at sets now user_id s))

  -- an empty set is one in which every score has passed
  pub zcard_pruned :
      (now : Time) (z : Z)
      → ((zcard (zremrangebyscore now z) == 0) ≡ true)
        ↔ ((j : Instance) → kept_above now (score j z) ≡ none)
  zcard_pruned now z = (
    λ e j.
        sym (sets.score-zremrangebyscore now j z)
        ∙ (sets.zcard_zero (zremrangebyscore now z)).0
            ((==_iff (zcard (zremrangebyscore now z)) 0).0 e) j,
    λ h. (==_iff (zcard (zremrangebyscore now z)) 0).1 (
        (sets.zcard_zero (zremrangebyscore now z)).1
          (λ j. sets.score-zremrangebyscore now j z ∙ h j)),
  )

  -- PRESENCE_CONNECT gives the instance a lease of `ttl` from now on the user, and keeps every other
  -- lease, of any instance on any user; it reports whether nobody had a lease on the user.
  pub connect_leases :
      (ttl now : Time) (i : Instance) (u : Uuid) (s : Shared sets) (v : Uuid) (j : Instance)
      → 0 < ttl
      → (lease now v j (presence_connect sets ttl now i u s).1
          ≡ (if (u == v) && (i == j) then some (now + ttl) else lease now v j s))
        × (((presence_connect sets ttl now i u s).0 ≡ true)
            ↔ ((k : Instance) → lease now u k s ≡ none))
  unfolding presence_connect
  connect_leases ttl now i u s v j pos =
      let z0 : Z = presence_at sets now u s in
      (
        ground (
          arith,
          ==_iff u v,
          sets.score-zadd (now + ttl) i j (zremrangebyscore now z0),
          sets.score-zremrangebyscore now j z0,
        ),
        zcard_pruned now z0,
      )

  -- PRESENCE_DISCONNECT takes the instance's lease on the user, and keeps every other lease, of any
  -- instance on any user; it reports whether that leaves nobody with a lease on the user.
  pub disconnect_leases :
      (now : Time) (i : Instance) (u : Uuid) (s : Shared sets) (v : Uuid) (j : Instance)
      → (lease now v j (presence_disconnect sets now i u s).1
          ≡ (if (u == v) && (i == j) then none else lease now v j s))
        × (((presence_disconnect sets now i u s).0 ≡ true)
            ↔ ((k : Instance) → (if i == k then none else lease now u k s) ≡ none))
  unfolding presence_disconnect
  disconnect_leases now i u s v j =
      let z0 : Z = presence_at sets now u s in
      let z : Z = zremrangebyscore now (zrem i z0) in
      let pruned : ((zcard z == 0) ≡ true)
          ↔ ((k : Instance) → (if i == k then none else lease now u k s) ≡ none) =
        (
          λ e k. ground (arith, (zcard_pruned now (zrem i z0)).0 e k, sets.score-zrem i k z0),
          λ h. (zcard_pruned now (zrem i z0)).1 (λ k. ground (arith, h k, sets.score-zrem i k z0)),
        ) in
      elim (Bool-cases (zcard z == 0)) [
        | inl e ↦ (
          ground (arith, ==_iff u v, e, sets.score-empty j, pruned.0 e j),
          (λ _. pruned.0 e, λ h. ground (arith, e)),
        )
        | inr e ↦ (
          ground (
            arith,
            ==_iff u v,
            e,
            sets.score-empty j,
            sets.score-zrem i j z0,
            sets.score-zremrangebyscore now j (zrem i z0),
          ),
          (λ h. ground (arith, e), λ h. (let e2 = pruned.1 h in cc)),
        )
      ]
