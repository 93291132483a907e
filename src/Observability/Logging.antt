-- ===== src/Observability/Logging.antt =====
-- `JsonFormatter.format` of backend/app/core/observability.py: the fields of a log line, before
-- `json.dumps`. What a record holds besides its text is of any type.
use chatterbox.Prelude.{
  Bool, true, false, not, ◌&&◌, Option, none, some, [], ◌∷◌, codes, starts_with, ◌≡◌, refl, ap, ◌∙◌,
  if◌then◌else◌, Bool-cases, inl, inr,
}
use chatterbox.Prelude.Dict.{Eq, Dict, lookup, put, lookup-put}
use chatterbox.Models.{Text}

-- A log record: `attributes` is its `__dict__`, `exception` the formatted `exc_info`.
pub record LogRecord (V : Type 0) : Type 0 where
  pub levelname : Text
  pub name : Text
  pub message : Text
  pub attributes : Dict Text V
  pub exception : Option Text

-- `text` makes a value of a text, and `is_log_field` tells the attributes of every record, with
-- `message` and `asctime` (STANDARD_LOG_FIELDS).
module _ {V : Type 0} (text : Text → V) (is_log_field : Text → Bool) ⦃e : Eq Text⦄ where
  abbrev pub is_extra : Text → Bool
  is_extra key = not (is_log_field key) && not (starts_with (codes "_") key)

  -- the loop over `record.__dict__`
  unfoldable pub add_extra : Dict Text V → Dict Text V → Dict Text V
  add_extra [] payload = payload
  add_extra ((key, value) ∷ rest) payload =
      add_extra rest (if is_extra key then put key value payload else payload)

  abbrev put_given : Text → Text → Dict Text V → Dict Text V
  put_given key [] payload = payload
  put_given key (c ∷ cs) payload = put key (text (c ∷ cs)) payload

  abbrev put_exception : Option Text → Dict Text V → Dict Text V
  put_exception none payload = payload
  put_exception (some t) payload = put (codes "exception") (text t) payload

  -- the fields that every line has, and the request and the trace if there are any
  abbrev written : Text → Text → Text → LogRecord V → Dict Text V
  written timestamp request_id trace_id r = put_given (codes "trace_id") trace_id (
      put_given (codes "request_id") request_id (
        put (codes "message") (text r.message) (
          put (codes "logger") (text r.name) (
            put (codes "level") (text r.levelname) (put (codes "timestamp") (text timestamp) [])))))

  -- `format`, with the time, the request id of the context and the id of the trace
  pub format : Text → Text → Text → LogRecord V → Dict Text V
  unfolding add_extra
  format timestamp request_id trace_id r =
      put_exception r.exception (add_extra r.attributes (written timestamp request_id trace_id r))

  other_key : (j k : Text) → is_extra j ≡ true → is_extra k ≡ false → e.beq j k ≡ false
  other_key j k y n = elim (Bool-cases (e.beq j k)) [
    | inl same ↦ absurd (let p : j ≡ k = (e.beq_iff j k).0 same in cc (ap is_extra p))
    | inr other ↦ other
  ]

  -- a key that is not extra is left alone
  lookup-add_extra :
      (k : Text) (attributes payload : Dict Text V)
      → is_extra k ≡ false
      → lookup k (add_extra attributes payload) ≡ lookup k payload
  unfolding add_extra
  lookup-add_extra k [] payload h = refl
  lookup-add_extra k ((j, v) ∷ rest) payload h = elim (Bool-cases (is_extra j)) [
    | inl y ↦ rw y (
        lookup-add_extra k rest (put j v payload) h
        ∙ lookup-put j k v payload
        ∙ rw (other_key j k y h) refl)
    | inr n ↦ rw n (lookup-add_extra k rest payload h)
  ]

  lookup-put_exception :
      (k : Text) (o : Option Text) (p q : Dict Text V)
      → lookup k p ≡ lookup k q
      → lookup k (put_exception o p) ≡ lookup k (put_exception o q)
  lookup-put_exception k none p q h = h
  lookup-put_exception k (some t) p q h =
      rw
        (
          lookup-put (codes "exception") k (text t) p,
          lookup-put (codes "exception") k (text t) q,
          h,
        )
        refl

  -- What a record has of its own is not a field of its line: a key that is not extra is looked up in
  -- the line as if the record had no attributes.
  pub format_hides :
      (timestamp request_id trace_id : Text) (r : LogRecord V) (k : Text)
      → is_extra k ≡ false
      → lookup k (format timestamp request_id trace_id r)
        ≡ lookup k (format timestamp request_id trace_id (record r { attributes = [] }))
  unfolding format add_extra
  format_hides timestamp request_id trace_id r k h =
      lookup-put_exception k r.exception
        (add_extra r.attributes (written timestamp request_id trace_id r))
        (written timestamp request_id trace_id r)
        (lookup-add_extra k r.attributes (written timestamp request_id trace_id r) h)
