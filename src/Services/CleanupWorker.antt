-- ===== src/Services/CleanupWorker.antt =====
-- backend/app/services/attachment_cleanup.py: the lock that the instances share, and one run of the
-- worker.
pub mod Progress
pub mod Exclusion
pub mod Completion
pub mod Rounds
use chatterbox.Prelude.{
  ℕ, zero, suc, ◌+◌, ◌-◌, ◌*◌, Bool, true, false, Option, none, some, List, [], ◌∷◌, length, ◌==◌,
  ltb, leb, if◌then◌else◌,
}
use chatterbox.Config.{Settings}
use chatterbox.Errors.{Result, ok, raised}
use chatterbox.Models.{Time, Text, Db}
use chatterbox.Session.{request}
use chatterbox.Storage.{Minio}
use chatterbox.Services.Attachment.{cleanup_abandoned}

-- The string that SET puts under the lock's key, and the time at which EX deletes it.
pub record Lock : Type 0 where
  pub token : ℕ
  pub expires_at : Time

-- what the key holds at a time
abbrev pub lock_at : Time → Option Lock → Option Lock
lock_at now none = none
lock_at now (some l) = if leb l.expires_at now then none else some l

-- SET with NX and EX
unfoldable pub acquire : Time → Time → ℕ → Option Lock → Bool × Option Lock
acquire ttl now token lock = elim (lock_at now lock) [
  | none ↦ (true, some (record { token = token; expires_at = now + ttl }))
  | some l ↦ (false, some l)
]

-- RELEASE_LOCK_SCRIPT
unfoldable pub release : Time → ℕ → Option Lock → Option Lock
release now token lock = elim (lock_at now lock) [
  | none ↦ none
  | some l ↦ if l.token == token then none else some l
]

abbrev pub cutoff_of : Settings → Time → Time
cutoff_of settings now = now - settings.attachment_pending_ttl_hours * 3_600_000_000

abbrev pub lock_ttl : Settings → Time
lock_ttl settings = settings.attachment_cleanup_interval_seconds * 1_000_000

module _ (minio : Minio) (lower : Text → Text) where
  open minio use {Bucket}

  -- The `while True` of `run_once`, on fuel, with what was removed so far.
  unfoldable pub drain : ℕ → Time → ℕ → Bucket → Db → Option (Result ℕ × Bucket × Db)
  drain zero cutoff removed b db = none
  drain (suc fuel) cutoff removed b db =
      let (r, db1) = request (cleanup_abandoned minio lower cutoff 100 b) db in
      elim r [
        | raised e ↦ some (raised e, b, db1)
        | ok (batch, b1) ↦
            (let rest = drain fuel cutoff (removed + batch) b1 db1 in
              if ltb batch 100 then some (ok (removed + batch), b1, db1) else rest)
      ]

  -- The rows, the objects and the lock.
  pub record World : Type 0 where
    pub db : Db
    pub bucket : Bucket
    pub lock : Option Lock

  -- `run_once` with the token that it draws, from its start to its end; `others` is what the other
  -- instances do to the lock meanwhile; the rows and the objects are taken not to change otherwise.
  unfoldable pub run_once :
      Settings
      → ℕ
      → Time
      → Time
      → (Option Lock → Option Lock)
      → ℕ
      → World
      → Option (Result ℕ × World)
  unfolding acquire release drain
  run_once settings fuel started ended others token w =
      let (acquired, lock) = acquire (lock_ttl settings) started token w.lock in
      let released = release ended token (others lock) in
      if acquired
      then (elim (drain fuel (cutoff_of settings started) 0 w.bucket w.db) [
        | none ↦ none
        | some (r, b, db) ↦ some (r, record { db = db; bucket = b; lock = released })
      ])
      else some (ok 0, record w { lock = lock })

  -- A round of `_run`: what happens to the rows, the objects and the lock before it, and the times,
  -- the token and the other instances of its run.
  pub record Round : Type 0 where
    pub before : World → World
    pub started : Time
    pub ended : Time
    pub token : ℕ
    pub others : Option Lock → Option Lock

  abbrev after : (World → Option World) → Option (Result ℕ × World) → Option World
  after next none = none
  after next (some (r, w)) = next w

  -- `_run` up to some round: whatever a run raises is logged, and the next one follows. The fuel of a
  -- run is one more than there are attachments.
  pub run_rounds : Settings → List Round → World → Option World
  unfolding run_once
  run_rounds settings [] w = some w
  run_rounds settings (round ∷ rounds) w =
      let w1 = round.before w in
      after (run_rounds settings rounds) (
        run_once settings (suc (length w1.db.attachments)) round.started round.ended round.others
          round.token w1)
