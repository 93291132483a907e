-- ===== src/Application.antt =====
-- backend/app/main.py: the lifespan and the readiness; backend/app/core/health.py.
use chatterbox.Prelude.{
  Option, none, some, ℕ, Bool, true, false, not, ◌&&◌, ◌||◌, ◌≡◌, arith, if◌then◌else◌,
}
use chatterbox.Errors.{failure, Result, ok, raised}
use chatterbox.Realtime.RedisBackend.Lifecycle.{
  Task, running, ended, Client, unstarted, start, stop, is_running, is_active,
}

-- the settings that `lifespan` and the report read
pub record Options : Type 0 where
  pub is_test : Bool
  pub minio_required : Bool
  pub redis_required : Bool

-- What runs, and what `application.state` tells: whether the bucket is there and whether a backend is
-- kept; the backend that was made, whether the manager has it, and the task of the cleanup worker.
pub record Running : Type 0 where
  pub storage_ready : Bool
  pub redis_backend : Bool
  pub client : Option Client
  pub attached : Bool
  pub cleaning : Task

abbrev pub idle : Running
idle = record {
  storage_ready = false;
  redis_backend = false;
  client = none;
  attached = false;
  cleaning = Task.absent;
}

-- `AttachmentCleanupWorker.start`, where there is something to clean and a lock for it
abbrev start_worker : Running → Running
start_worker s = if s.storage_ready && s.redis_backend then record s { cleaning = running } else s

-- what follows the start of the backend: it is attached, or stopped
abbrev after_start : Options → Result (Unit {0}) × Client → Running → Result (Unit {0}) × Running
after_start options (ok _, c) s =
    (ok tt, start_worker (record s { client = some c; attached = true; redis_backend = true }))
after_start options (raised e, c) s =
    let s1 = record s { client = some (stop c) } in
    if options.redis_required then (raised e, s1) else (ok tt, start_worker s1)

abbrev start_backend : Options → Bool → Bool → Running → Result (Unit {0}) × Running
start_backend options pings subscribes s = after_start options (start pings subscribes unstarted) s

-- `lifespan` up to its `yield`: whether `ensure_bucket` goes through, Redis answers the ping, and the
-- subscription is made
unfoldable pub startup : Options → Bool → Bool → Bool → Result (Unit {0}) × Running
unfolding start stop
startup options bucket pings subscribes =
    if options.is_test
    then (ok tt, idle)
    else if bucket
    then start_backend options pings subscribes (record idle { storage_ready = true })
    else if options.minio_required
    then (raised failure, idle)
    else start_backend options pings subscribes idle

-- `AttachmentCleanupWorker.stop`
abbrev stop_worker : Task → Task
stop_worker Task.absent = Task.absent
stop_worker running = ended
stop_worker ended = ended

abbrev stop_client : Option Client → Option Client
stop_client none = none
stop_client (some c) = some (stop c)

-- the `finally`
unfoldable pub shutdown : Running → Running
unfolding stop
shutdown s =
    let s1 = record s { cleaning = stop_worker s.cleaning } in
    if s.redis_backend
    then record s1 { attached = false; client = stop_client s.client; redis_backend = false }
    else s1

-- a check under `wait_for`: what it returned, or that it raised or took too long
abbrev passed : Result Bool → Bool
passed (ok b) = b
passed (raised e) = false

pub data Realtime : Type 0 where
  local redis unavailable : Realtime

pub record Report : Type 0 where
  pub ready : Bool
  pub database : Bool
  pub realtime : Realtime
  pub storage : Bool

-- `readiness_report`, on the answers of the database, of the backend and of the store
unfoldable pub readiness_report :
    Options → Result Bool → Result Bool → Result Bool → Running → Report
readiness_report options database ping storage s =
    let database_ok = passed database in
    let redis_ok = if s.redis_backend then passed ping else not options.redis_required in
    let storage_ok = passed storage in
    record {
      ready = database_ok && (redis_ok && (storage_ok || not options.minio_required));
      database = database_ok;
      realtime =
          if redis_ok
          then (if s.redis_backend then Realtime.redis else Realtime.local)
          else Realtime.unavailable;
      storage = storage_ok;
    }

-- the status of `_readiness`
unfoldable pub readiness : Options → Result Bool → Result Bool → Result Bool → Running → ℕ
unfolding readiness_report
readiness options database ping storage s =
    if (readiness_report options database ping storage s).ready then 200 else 503

abbrev pub is_ok : Result (Unit {0}) → Bool
is_ok (ok _) = true
is_ok (raised e) = false

abbrev pub is_available : Option Client → Bool
is_available none = false
is_available (some c) = c.available

-- whether anything is left of a backend
abbrev pub is_left : Option Client → Bool
is_left none = false
is_left (some c) = is_active c

-- Whatever starts and whatever fails: the start goes through unless the bucket or the backend fails
-- where it is required, outside a test; a backend is available, and the manager has it, exactly if the
-- start went through outside a test and Redis answered the ping and made the subscription, and
-- otherwise nothing is left of one; the worker runs exactly with both the bucket and the backend; and
-- after the `finally` nothing is left, attached, kept or running.
pub lifespan_lem :
    (options : Options) (bucket pings subscribes : Bool)
    → let (r, s) = startup options bucket pings subscribes in
      let connects = pings && subscribes in
      (is_ok r ≡ (
        options.is_test
        || ((bucket || not options.minio_required) && (connects || not options.redis_required))))
      × (is_available s.client ≡ (is_ok r && (not options.is_test && connects)))
      × (s.attached ≡ is_available s.client)
      × (is_left s.client ≡ is_available s.client)
      × (is_running s.cleaning ≡ (s.storage_ready && is_available s.client))
      × (is_left (shutdown s).client ≡ false)
      × ((shutdown s).attached ≡ false)
      × ((shutdown s).redis_backend ≡ false)
      × (is_running (shutdown s).cleaning ≡ false)
unfolding startup shutdown start stop
lifespan_lem options bucket pings subscribes = ground arith

-- After a start that went through outside a test, the service reports that it is ready exactly if the
-- database answers, the backend answers its ping or is neither there nor required, and the store
-- answers or is not required.
pub readiness_lem :
    (options : Options) (bucket pings subscribes : Bool) (database ping storage : Result Bool)
    → readiness options database ping storage (startup options bucket pings subscribes).1 ≡ (
        if passed database
          && ((if is_available (startup options bucket pings subscribes).1.client
                then passed ping
                else not options.redis_required)
              && (passed storage || not options.minio_required))
        then 200
        else 503)
unfolding readiness startup
readiness_lem options bucket pings subscribes database ping storage = ground arith
