-- ===== src/Examples/Cleaning.antt =====
-- The cleanup worker and its lock.
use chatterbox.Prelude.{ℕ, true, none, some, List, [], ◌∷◌, ◌≡◌, refl, arith, filter}
use chatterbox.Errors.{ok}
use chatterbox.Models.{Time}
use chatterbox.Repositories.Attachments.{is_abandoned}
use chatterbox.Services.CleanupWorker.{Round, run_rounds, acquire, cutoff_of, World, run_once}
use chatterbox.Services.CleanupWorker.Exclusion.{
  Command, set_nx, compare_and_delete, perform_all, lock_exclusive,
}
use chatterbox.Services.CleanupWorker.Rounds.{run_rounds_return}
use chatterbox.Services.CleanupWorker.Completion.{run_once_cleans}
use chatterbox.Examples.World.{minio, lower, settings, db}
use chatterbox.Examples.Uploads.{bucket}

-- another run that comes too early, and one that comes late to release an expired lock
abbrev commands : List (Time × Command)
commands = (20, set_nx 2) ∷ (30, compare_and_delete 3) ∷ []

free : (acquire 60 10 1 none).0 ≡ true
unfolding acquire
free = refl

lock_exclusive_example :
    perform_all 60 commands (acquire 60 10 1 none).1
    ≡ ([], some (record { token = 1; expires_at = 70 }))
lock_exclusive_example =
    lock_exclusive 60 10 1 none commands free
      ((omega arith, (λ e. omega arith)), ((omega arith, (λ e. omega arith)), tt))

abbrev world : World minio lower
world = record { db = db; bucket = bucket; lock = none }

run_once_cleans_example :
    (n : ℕ) × (w' : World minio lower) × (run_once minio lower settings 4 90_000_000_000
        90_000_000_500
        (λ lock. lock)
        1
        world
      ≡ some (ok n, w'))
    × (filter (is_abandoned (cutoff_of settings 90_000_000_000)) w'.db.attachments ≡ [])
    × (w'.lock ≡ none)
run_once_cleans_example =
    run_once_cleans minio lower (λ b key. (_, refl)) settings 4 90_000_000_000 90_000_000_500 1
      world refl (omega arith)

-- a run that finds the lock of another instance, and one after that
abbrev rounds : List (Round minio lower)
rounds =
    record {
      before = λ w. record w { lock = some (record { token = 7; expires_at = 90_000_000_100 }) };
      started = 90_000_000_000;
      ended = 90_000_000_001;
      token = 1;
      others = λ lock. lock;
    }
    ∷ record {
      before = λ w. w;
      started = 90_000_000_200;
      ended = 90_000_000_201;
      token = 2;
      others = λ lock. none;
    }
    ∷ []

run_rounds_return_example :
    (w' : World minio lower) × (run_rounds minio lower settings rounds world ≡ some w')
run_rounds_return_example = run_rounds_return minio lower settings rounds world
