-- ===== src/Observability.antt =====
-- The request middleware of backend/app/core/observability.py.
pub mod Logging
use chatterbox.Prelude.{
  ℕ, ◌+◌, ◌-◌, Bool, true, ◌&&◌, ◌||◌, Option, none, some, List, [], ◌∷◌, ◌++◌, ◌≡◌, refl, arith,
  leb, ◌==◌, length, text_eq, if◌then◌else◌,
}
use chatterbox.Errors.{Result, ok, raised}
use chatterbox.Models.{Text}

-- the characters of `[A-Za-z0-9._-]`
abbrev is_id_char : ℕ → Bool
is_id_char c =
    (leb 65 c && leb c 90)
    || (leb 97 c && leb c 122)
    || (leb 48 c && leb c 57)
    || c == 46
    || c == 95
    || c == 45

abbrev all_id_chars : Text → Bool
all_id_chars [] = true
all_id_chars (c ∷ cs) = is_id_char c && all_id_chars cs

-- REQUEST_ID_PATTERN
abbrev pub is_request_id : Text → Bool
is_request_id t = leb 1 (length t) && (leb (length t) 128 && all_id_chars t)

-- `normalize_request_id`; `fresh` is `uuid4().hex`
pub normalize_request_id : Text → Option Text → Text
normalize_request_id fresh none = fresh
normalize_request_id fresh (some candidate) = if is_request_id candidate then candidate else fresh

-- HTTP_REQUESTS_IN_PROGRESS by method, and the increments of HTTP_REQUESTS_TOTAL: the method, the
-- route and the status code of each.
pub record Metrics : Type 0 where
  pub in_progress : Text → ℕ
  pub requests : List (Text × Text × ℕ)

abbrev pub change : (ℕ → ℕ) → Text → (Text → ℕ) → Text → ℕ
change f method gauge m = if text_eq method m then f (gauge m) else gauge m

-- a response with its status code and the header `X-Request-ID`
pub record Response : Type 0 where
  pub status_code : ℕ
  pub request_id : Text

abbrev pub status_of : Result ℕ → ℕ
status_of (ok n) = n
status_of (raised e) = 500

abbrev with_id : Text → Result ℕ → Result Response
with_id request_id (ok n) = ok (record { status_code = n; request_id = request_id })
with_id request_id (raised e) = raised e

-- `RequestObservabilityMiddleware.dispatch`: `call_next` is what the application does with the
-- request, and with the metrics meanwhile.
pub dispatch :
    Text
    → Text
    → Text
    → Option Text
    → (Metrics → Result ℕ × Metrics)
    → Metrics
    → Result Response × Metrics
unfolding normalize_request_id
dispatch fresh method route header call_next m =
    let request_id = normalize_request_id fresh header in
    let (r, m1) = call_next (record m { in_progress = change (λ n. n + 1) method m.in_progress }) in
    (
      with_id request_id r,
      record {
        in_progress = change (λ n. n - 1) method m1.in_progress;
        requests = m1.requests ++ (method, route, status_of r) ∷ [];
      },
    )

-- the gauges and the counters, as other requests leave them that begin and end meanwhile
abbrev pub Balanced : (Metrics → Result ℕ × Metrics) → Type 0
Balanced call_next =
    (m : Metrics) (method : Text) → (call_next m).1.in_progress method ≡ m.in_progress method

-- whether a response, if there is one, carries a well-formed identifier
abbrev pub has_request_id : Result Response → Bool
has_request_id (raised e) = true
has_request_id (ok r) = is_request_id r.request_id

normalized :
    (fresh : Text) (header : Option Text)
    → is_request_id fresh ≡ true
    → is_request_id (normalize_request_id fresh header) ≡ true
unfolding normalize_request_id
normalized fresh none h = h
normalized fresh (some t) h = ground (arith, h)

-- Whether the application answers or raises, if it leaves the gauges as it finds them and the fresh
-- identifier is well formed: the gauge of every method is in the end what it was, the request is
-- counted last and once, with the status of the response or 500, and a response carries a well-formed
-- identifier.
pub dispatch_lem :
    (fresh method route : Text) (header : Option Text) (call_next : Metrics → Result ℕ × Metrics)
    (m : Metrics)
    → Balanced call_next
    → is_request_id fresh ≡ true
    → let begun = record m { in_progress = change (λ n. n + 1) method m.in_progress } in
      let (answered, after) = dispatch fresh method route header call_next m in
      ((k : Text) → after.in_progress k ≡ m.in_progress k)
      × (after.requests
          ≡ (call_next begun).1.requests ++ (method, route, status_of (call_next begun).0) ∷ [])
      × (has_request_id answered ≡ true)
unfolding dispatch
dispatch_lem fresh method route header call_next m balanced well =
    let begun : Metrics = record m { in_progress = change (λ n. n + 1) method m.in_progress } in
    (λ k. ground (arith, balanced begun k), refl, ground (arith, normalized fresh header well))
