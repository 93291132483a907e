-- ===== src/Services/CleanupWorker/Completion.antt =====
-- What a run of the cleanup leaves, with an object store that removes what it is asked to remove.
use chatterbox.Prelude.{
  ltb, ltb→lt, ℕ, zero, suc, ◌+◌, ◌<◌, Bool, true, not, none, some, List, [], ◌∷◌, ◌≡◌, refl, ◌∙◌,
  ap, sym, arith, All, length, filter, take, map, mem, ◌==◌, ==_iff, ==_self, inl, inr, Bool-cases,
}
use chatterbox.Prelude.Rows.{All-imp}
use chatterbox.Prelude.Sort.{insert_by, sort_by}
use chatterbox.Config.{Settings}
use chatterbox.Errors.{ok}
use chatterbox.Models.{Uuid, Time, Text, Attachment, Db}
use chatterbox.Repositories.Attachments
use chatterbox.Repositories.Attachments.{is_abandoned, older, list_abandoned}
use chatterbox.Storage
use chatterbox.Storage.{Minio, done}
use chatterbox.Services.Attachment.{remove_each, cleanup_abandoned}
use chatterbox.Services.CleanupWorker.{lock_at, cutoff_of, drain, World, run_once}
use chatterbox.Services.CleanupWorker.Progress.{drain_returns}

abbrev ids : List Attachment → List Uuid
ids rows = map (λ a. a.id) rows

-- the rows with none of some ids
abbrev outside : List Uuid → List Attachment → List Attachment
outside is xs = filter (λ a. not (mem a.id is)) xs

mem-insert_by :
    (i : Uuid) (x : Attachment) (xs : List Attachment)
    → mem i (ids (insert_by older x xs)) ≡ mem i (ids (x ∷ xs))
unfolding insert_by
mem-insert_by i x [] = refl
mem-insert_by i x (y ∷ ys) = ground (arith, mem-insert_by i x ys)

-- sorting keeps the ids
mem-sort_by : (i : Uuid) (xs : List Attachment) → mem i (ids (sort_by older xs)) ≡ mem i (ids xs)
unfolding sort_by
mem-sort_by i [] = refl
mem-sort_by i (x ∷ xs) = mem-insert_by i x (sort_by older xs) ∙ ground (arith, mem-sort_by i xs)

take_all : (n : ℕ) (xs : List Attachment) → length (take n xs) < n → take n xs ≡ xs
take_all zero xs h = absurd (ground arith)
take_all (suc n) [] h = refl
take_all (suc n) (x ∷ xs) h = ap (λ r. x ∷ r) (take_all n xs (ground (arith, h)))

-- every row that a filter keeps has its id among those of the kept rows
kept_ids :
    (p : Attachment → Bool) (xs : List Attachment)
    → All (λ a. p a ≡ true → mem a.id (ids (filter p xs)) ≡ true) xs
kept_ids p [] = tt
kept_ids p (x ∷ xs) = (
  (λ e. rw e (rw (==_self x.id) refl)),
  All-imp (λ a. p a ≡ true → mem a.id (ids (filter p xs)) ≡ true)
      (λ a. p a ≡ true → mem a.id (ids (filter p (x ∷ xs))) ≡ true) (λ a h e. ground (arith, h e))
      xs (kept_ids p xs),
)

-- without the ids of the rows that pass a test, no row passes it
none_left :
    (p : Attachment → Bool) (is : List Uuid) (xs : List Attachment)
    → All (λ a. p a ≡ true → mem a.id is ≡ true) xs
    → filter p (outside is xs) ≡ []
none_left p is [] h = refl
none_left p is (x ∷ xs) (here, h) = ground (arith, here, none_left p is xs h)

outside_two :
    (i : Uuid) (is : List Uuid) (xs : List Attachment)
    → outside is (filter (λ a. not (a.id == i)) xs) ≡ outside (i ∷ is) xs
outside_two i is [] = refl
outside_two i is (x ∷ xs) = ground (arith, ==_iff i x.id, ==_iff x.id i, outside_two i is xs)

outside_none : (xs : List Attachment) → outside [] xs ≡ xs
outside_none [] = refl
outside_none (x ∷ xs) = ap (λ r. x ∷ r) (outside_none xs)

module _ (minio : Minio) (lower : Text → Text)
    (removes : (b : minio.Bucket) (key : Text)
      → (b' : minio.Bucket) × (minio.remove_object b key ≡ done b')) where
  open minio use {Bucket}

  removed : (b : Bucket) (key : Text) → (b' : Bucket) × (Storage.remove minio b key ≡ ok b')
  unfolding Storage.remove
  removed b key = let (b', e) = removes b key in (b', ground (arith, e))

  remove_each_all :
      (rows : List Attachment) (b : Bucket) (db : Db)
      → let (n, b', db') = remove_each minio lower rows b db in
        (n ≡ length rows) × (db'.attachments ≡ outside (ids rows) db.attachments)
  unfolding remove_each
  remove_each_all [] b db = (refl, sym (outside_none db.attachments))
  remove_each_all (a ∷ rows) b db =
      let (b', gone) = removed b a.storage_key in
      let (n, rest) = remove_each_all rows b' (Attachments.delete a db) in
      (
        ground (arith, gone, n),
        ground (arith, gone, rest, outside_two a.id (ids rows) db.attachments),
      )

  -- the rows after a batch that was not full
  last_batch :
      (limit : ℕ) (cutoff : Time) (b : Bucket) (db : Db)
      → let (n, b', db') = remove_each minio lower (list_abandoned cutoff limit db) b db in
        ltb n limit ≡ true → filter (is_abandoned cutoff) db'.attachments ≡ []
  last_batch limit cutoff b db short =
      let found : List Attachment = filter (is_abandoned cutoff) db.attachments in
      let rows : List Attachment = list_abandoned cutoff limit db in
      let (n, left) = remove_each_all rows b db in
      let all_of : rows ≡ sort_by older found =
        take_all limit (sort_by older found) (rw n at (ltb→lt _ limit short)) in
      rw left (
        none_left (is_abandoned cutoff) (ids rows) db.attachments (
          rw all_of (
            All-imp _ _ (λ a h e. mem-sort_by a.id found ∙ h e) db.attachments
              (kept_ids (is_abandoned cutoff) db.attachments))))

  drain_removes_all :
      (fuel : ℕ) (cutoff : Time) (k : ℕ) (b : Bucket) (db : Db) (n : ℕ) (b' : Bucket) (db' : Db)
      → drain minio lower fuel cutoff k b db ≡ some (ok n, b', db')
      → filter (is_abandoned cutoff) db'.attachments ≡ []
  unfolding drain cleanup_abandoned
  drain_removes_all zero cutoff k b db n b' db' h = absurd cc
  drain_removes_all (suc fuel) cutoff k b db n b' db' h =
      let (m, b1, db1) = remove_each minio lower (list_abandoned cutoff 100 db) b db in
      elim (Bool-cases (ltb m 100)) [
        | inl e ↦ (let left = last_batch 100 cutoff b db e in ground (arith, e, h, left))
        | inr e ↦ drain_removes_all fuel cutoff (k + m) b1 db1 n b' db' (ground (arith, e, h))
      ]

  -- A run that finds the lock free ends; it leaves no attachment that is abandoned at its cutoff, and
  -- the lock free, if the store removes what it is asked to remove and no one else takes the lock.
  pub run_once_cleans :
      (settings : Settings) (fuel : ℕ) (started ended : Time) (token : ℕ) (w : World minio lower)
      → lock_at started w.lock ≡ none
      → length w.db.attachments < fuel
      → (n : ℕ) × (w' : World minio lower) × (run_once minio lower settings fuel started ended
            (λ lock. lock)
            token
            w
          ≡ some (ok n, w'))
        × (filter (is_abandoned (cutoff_of settings started)) w'.db.attachments ≡ [])
        × (w'.lock ≡ none)
  unfolding run_once
  run_once_cleans settings fuel started ended token w free enough =
      let cutoff : Time = cutoff_of settings started in
      let (n, b', db', e) = drain_returns minio lower fuel cutoff 0 w.bucket w.db enough in
      (
        n,
        record { db = db'; bucket = b'; lock = none },
        ground (arith, free, e),
        drain_removes_all fuel cutoff 0 w.bucket w.db n b' db' e,
        refl,
      )
