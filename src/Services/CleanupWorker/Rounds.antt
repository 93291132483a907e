-- ===== src/Services/CleanupWorker/Rounds.antt =====
-- `_run` of backend/app/services/attachment_cleanup.py goes on.
use chatterbox.Prelude.{
  ℕ, suc, Option, some, List, [], ◌∷◌, ◌<◌, length, ◌≡◌, refl, inl, inr, arith, Bool-cases,
}
use chatterbox.Config.{Settings}
use chatterbox.Errors.{ok}
use chatterbox.Models.{Time, Text}
use chatterbox.Storage.{Minio}
use chatterbox.Services.CleanupWorker.{
  Lock, lock_ttl, acquire, release, cutoff_of, World, run_once, Round, run_rounds,
}
use chatterbox.Services.CleanupWorker.Progress.{drain_returns}

module _ (minio : Minio) (lower : Text → Text) where
  open minio use {Bucket}

  -- a run ends
  run_once_ends :
      (settings : Settings) (started ended : Time) (others : Option Lock → Option Lock) (token : ℕ)
      (fuel : ℕ) (w : World minio lower)
      → length w.db.attachments < fuel
      → (n : ℕ) × (w' : World minio lower) × (run_once minio lower settings fuel started ended
            others token w
          ≡ some (ok n, w'))
  unfolding run_once
  run_once_ends settings started ended others token fuel w h =
      let (n, b, db, e) =
        drain_returns minio lower fuel (cutoff_of settings started) 0 w.bucket w.db h in
      let lock : Option Lock = (acquire (lock_ttl settings) started token w.lock).1 in
      elim (Bool-cases (acquire (lock_ttl settings) started token w.lock).0) [
        | inl got ↦ (
          n,
          record { db = db; bucket = b; lock = release ended token (others lock) },
          ground (arith, got, e),
        )
        | inr missed ↦ (0, record w { lock = lock }, ground (arith, missed))
      ]

  -- Whatever the object store answers, whatever happens to the rows, the objects and the lock between
  -- the runs, and whatever others do to the lock while a run removes, no other rows or objects changing
  -- meanwhile: every round of `_run` ends, within one round of its loop more than there are attachments.
  pub run_rounds_return :
      (settings : Settings) (rounds : List (Round minio lower)) (w : World minio lower)
      → (w' : World minio lower) × (run_rounds minio lower settings rounds w ≡ some w')
  unfolding run_rounds
  run_rounds_return settings [] w = (w, refl)
  run_rounds_return settings (round ∷ rounds) w =
      let (n, w1, e) =
        run_once_ends settings round.started round.ended round.others round.token
          (suc (length (round.before w).db.attachments)) (round.before w) (omega arith) in
      let (w2, f) = run_rounds_return settings rounds w1 in (w2, rw e f)
