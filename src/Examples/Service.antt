-- ===== src/Examples/Service.antt =====
-- The start of the application, and a request through the middleware.
use chatterbox.Prelude.{ℕ, ◌+◌, true, false, ◌&&◌, some, [], ◌∷◌, ◌++◌, ◌≡◌, refl, codes}
use chatterbox.Errors.{failure, Result, raised}
use chatterbox.Models.{Text}
use chatterbox.Application.{
  Options, Running, startup, shutdown, is_ok, is_available, is_left, lifespan_lem,
}
use chatterbox.Realtime.RedisBackend.Lifecycle.{is_running}
use chatterbox.Observability.{Metrics, dispatch, change, has_request_id, dispatch_lem}

-- Redis is required
abbrev options : Options
options = record { is_test = false; minio_required = true; redis_required = true }

-- the ping is answered, but there is no subscription
abbrev up : Result (Unit {0}) × Running
up = startup options true true false

lifespan_lem_example :
    (is_ok up.0 ≡ false)
    × (is_available up.1.client ≡ (is_ok up.0 && false))
    × (up.1.attached ≡ is_available up.1.client)
    × (is_left up.1.client ≡ is_available up.1.client)
    × (is_running up.1.cleaning ≡ (up.1.storage_ready && is_available up.1.client))
    × (is_left (shutdown up.1).client ≡ false)
    × ((shutdown up.1).attached ≡ false)
    × ((shutdown up.1).redis_backend ≡ false)
    × (is_running (shutdown up.1).cleaning ≡ false)
lifespan_lem_example = lifespan_lem options true true false

abbrev metrics : Metrics
metrics = record { in_progress = λ m. 2; requests = [] }

-- another request ends while this one fails
abbrev failing : Metrics → Result ℕ × Metrics
failing m =
    (raised failure, record m { requests = m.requests ++ (codes "GET", codes "/users", 200) ∷ [] })

abbrev begun : Metrics
begun = record metrics { in_progress = change (λ n. n + 1) (codes "GET") metrics.in_progress }

abbrev after : Metrics
after = (dispatch (codes "f0") (codes "GET") (codes "/me") (some (codes "a b")) failing metrics).1

dispatch_lem_example :
    ((k : Text) → after.in_progress k ≡ 2)
    × (after.requests ≡ (failing begun).1.requests ++ (codes "GET", codes "/me", 500) ∷ [])
    × (has_request_id
          (dispatch (codes "f0") (codes "GET") (codes "/me") (some (codes "a b")) failing metrics).0
        ≡ true)
dispatch_lem_example =
    dispatch_lem (codes "f0") (codes "GET") (codes "/me") (some (codes "a b")) failing metrics
      (λ m k. refl) refl
