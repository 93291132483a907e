-- ===== src/Realtime/Redis/Typing.antt =====
-- The sweep of typing that has expired (redis_backend.py).
use chatterbox.Prelude.{
  ℕ, ◌<◌, false, ◌&&◌, none, some, List, [], ◌∷◌, ◌≡◌, refl, ap, ◌∙◌, ◌+◌, All, inl, inr, arith,
  ==_iff, ==_self, Bool-cases, Option-cases, is_some, mem, if◌then◌else◌,
}
use chatterbox.Prelude.Dict.{lookup, remove, nat_eq, pair_eq, lookup-put, lookup-remove}
use chatterbox.Models.{Uuid, Time}
use chatterbox.Realtime.Events.{Event}
use chatterbox.Realtime.SortedSet.{SortedSet}
use chatterbox.Realtime.Redis.{
  Shared, Envelope, take_expired, publish_each, sweep_typing, typing_started,
}

module _ (sets : SortedSet) where
  open sets use {score, zrangebyscore}

  taken_score :
      (ms : List ℕ) (j : ℕ) (s : Shared sets)
      → score j (take_expired sets ms s).1.typing_expirations
        ≡ (if mem j ms then none else score j s.typing_expirations)
  taken_score [] j s = refl
  taken_score (m ∷ ms) j s =
      let s1 = record s {
        typing_expirations = sets.zrem m s.typing_expirations;
        typing_data = remove m s.typing_data;
      } in
      elim (Bool-cases (is_some (score m s.typing_expirations))) [
        | inl scored ↦ elim (Option-cases (lookup m s.typing_data)) [
          | inl nothing ↦
              rw (scored, nothing)
                (ground (
                  arith,
                  ==_iff m j,
                  taken_score ms j s1,
                  sets.score-zrem m j s.typing_expirations,
                ))
          | inr (d, found) ↦
              rw (scored, found)
                (ground (
                  arith,
                  ==_iff m j,
                  taken_score ms j s1,
                  sets.score-zrem m j s.typing_expirations,
                ))
        ]
        | inr unscored ↦ rw unscored (ground (arith, ==_iff m j, taken_score ms j s))
      ]

  taken_data :
      (ms : List ℕ) (j : ℕ) (s : Shared sets)
      → lookup j (take_expired sets ms s).1.typing_data ≡ (
          if mem j ms && is_some (score j s.typing_expirations)
          then none
          else lookup j s.typing_data)
  taken_data [] j s = refl
  taken_data (m ∷ ms) j s =
      let s1 = record s {
        typing_expirations = sets.zrem m s.typing_expirations;
        typing_data = remove m s.typing_data;
      } in
      elim (Bool-cases (is_some (score m s.typing_expirations))) [
        | inl scored ↦ elim (Option-cases (lookup m s.typing_data)) [
          | inl nothing ↦
              rw (scored, nothing)
                (ground (
                  arith,
                  nothing,
                  ==_iff m j,
                  taken_data ms j s1,
                  lookup-remove m j s.typing_data,
                  sets.score-zrem m j s.typing_expirations,
                ))
          | inr (d, found) ↦
              rw (scored, found)
                (ground (
                  arith,
                  scored,
                  ==_iff m j,
                  taken_data ms j s1,
                  lookup-remove m j s.typing_data,
                  sets.score-zrem m j s.typing_expirations,
                ))
        ]
        | inr unscored ↦ rw unscored (ground (arith, unscored, ==_iff m j, taken_data ms j s))
      ]

  published-typing :
      (ds : List Envelope) (s : Shared sets)
      → ((publish_each sets ds s).typing_expirations ≡ s.typing_expirations)
        × ((publish_each sets ds s).typing_data ≡ s.typing_data)
  published-typing [] s = (refl, refl)
  published-typing (d ∷ ds) s = published-typing ds _

  -- A sweep takes the deadline and the stop event of each member that it found due, and leaves
  -- those of every other one.
  pub sweep_typing_lem :
      (now : Time) (j : ℕ) (s : Shared sets)
      → (score j (sweep_typing sets now s).typing_expirations ≡ (
          if mem j (zrangebyscore now 100 s.typing_expirations)
          then none
          else score j s.typing_expirations))
        × (lookup j (sweep_typing sets now s).typing_data ≡ (
            if mem j (zrangebyscore now 100 s.typing_expirations)
            then none
            else lookup j s.typing_data))
  unfolding sweep_typing
  sweep_typing_lem now j s =
      let ms = zrangebyscore now 100 s.typing_expirations in
      let kept = published-typing (take_expired sets ms s).0 (take_expired sets ms s).1 in
      let sound = sets.zrangebyscore_sound now 100 s.typing_expirations j in
      (
        ap (score j) kept.0 ∙ taken_score ms j s,
        ap (lookup j) kept.1
            ∙ (taken_data ms j s ∙ (elim (Bool-cases (mem j ms)) [
              | inl due ↦ ground (arith, due, sound due)
              | inr not_due ↦ ground (arith, not_due)
            ])),
      )

  -- sweeps at some times
  pub sweeps : List Time → Shared sets → Shared sets
  sweeps [] s = s
  sweeps (t ∷ ts) s = sweeps ts (sweep_typing sets t s)

  kept_by_sweeps :
      (j : ℕ) (e : Time) (d : Envelope) (ts : List Time) (s : Shared sets)
      → All (λ t. t < e) ts
      → score j s.typing_expirations ≡ some e
      → lookup j s.typing_data ≡ some d
      → (score j (sweeps ts s).typing_expirations ≡ some e)
        × (lookup j (sweeps ts s).typing_data ≡ some d)
  unfolding sweeps
  kept_by_sweeps j e d [] s early scored held = (scored, held)
  kept_by_sweeps j e d (t ∷ ts) s early scored held =
      let sound = sets.zrangebyscore_sound t 100 s.typing_expirations j in
      let not_due : mem j (zrangebyscore t 100 s.typing_expirations) ≡ false =
        ground (arith, sound, scored, early.0) in
      let (scores, held1) = sweep_typing_lem t j s in
      kept_by_sweeps j e d ts (sweep_typing sets t s) early.1
        (ground (arith, not_due, scores, scored)) (ground (arith, not_due, held1, held))

  -- Whoever started typing is kept for the whole `ttl`: sweeps before its end, however many, leave
  -- the deadline and the event that will stop it.
  pub typing_for_ttl :
      (ttl now : Time) (j : ℕ) (targets : List Uuid) (started stopped : Event) (ts : List Time)
      (s : Shared sets)
      → All (λ t. t < now + ttl) ts
      → (score j
            (sweeps ts (typing_started sets ttl now j targets started stopped s)).typing_expirations
          ≡ some (now + ttl))
        × (lookup j
              (sweeps ts (typing_started sets ttl now j targets started stopped s)).typing_data
            ≡ some (record { targets = targets; event = stopped }))
  unfolding typing_started
  typing_for_ttl ttl now j targets started stopped ts s early =
      let d : Envelope = record { targets = targets; event = stopped } in
      kept_by_sweeps j (now + ttl) d ts _ early
        (ground (arith, ==_self j, sets.score-zadd (now + ttl) j j s.typing_expirations))
        (ground (arith, ==_self j, lookup-put j j d s.typing_data))
