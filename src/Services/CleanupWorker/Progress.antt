-- ===== src/Services/CleanupWorker/Progress.antt =====
-- How the loop of a cleanup progresses and ends.
use chatterbox.Prelude.{
  ltb, ℕ, zero, suc, ◌+◌, ◌≤◌, ◌<◌, Bool, true, not, some, List, [], ◌∷◌, ◌≡◌, refl, ◌⊎◌, arith,
  All, length, any, filter, ◌==◌, ==_self, inl, inr, Bool-cases,
}
use chatterbox.Prelude.Sort.{sort_by}
use chatterbox.Prelude.Rows.{All-imp, All-filter}
use chatterbox.Errors.{ok, Result-cases}
use chatterbox.Models.{Uuid, Time, Text, Attachment, Db}
use chatterbox.Repositories.Attachments
use chatterbox.Repositories.Attachments.{is_abandoned, older, list_abandoned}
use chatterbox.Storage
use chatterbox.Storage.{Minio}
use chatterbox.Services.Attachment.{remove_each, cleanup_abandoned}
use chatterbox.Services.Attachment.Cleanup.{sort_by-All, take-All}
use chatterbox.Services.CleanupWorker.{drain}

abbrev has_id : Uuid → Attachment → Bool
has_id i a = a.id == i

-- the rows that the deletion of an id leaves
abbrev without : Uuid → List Attachment → List Attachment
without i xs = filter (λ a. not (a.id == i)) xs

length-without : (i : Uuid) (xs : List Attachment) → length (without i xs) ≤ length xs
length-without i [] = ground arith
length-without i (x ∷ xs) = ground (arith, length-without i xs)

without_shrinks :
    (i : Uuid) (xs : List Attachment) → any (has_id i) xs ≡ true → length (without i xs) < length xs
without_shrinks i [] h = absurd cc
without_shrinks i (x ∷ xs) h = ground (arith, length-without i xs, without_shrinks i xs, h)

any_own_id : (xs : List Attachment) → All (λ a. any (has_id a.id) xs ≡ true) xs
any_own_id [] = tt
any_own_id (x ∷ xs) = (
  ground (arith, ==_self x.id),
  All-imp (λ a. any (has_id a.id) xs ≡ true) (λ a. any (has_id a.id) (x ∷ xs) ≡ true)
      (λ a h. ground (arith, h)) xs (any_own_id xs),
)

-- every row that a cleanup looks at is in the table
listed :
    (cutoff : Time) (limit : ℕ) (db : Db)
    → All (λ a. any (has_id a.id) db.attachments ≡ true) (list_abandoned cutoff limit db)
listed cutoff limit db =
    let P : Attachment → Type 0 = λ a. any (has_id a.id) db.attachments ≡ true in
    let rows = filter (is_abandoned cutoff) db.attachments in
    take-All P limit (sort_by older rows) (
      sort_by-All P rows
        (All-filter P (is_abandoned cutoff) db.attachments (any_own_id db.attachments)))

module _ (minio : Minio) (lower : Text → Text) where
  open minio use {Bucket}

  length-remove_each :
      (rows : List Attachment) (b : Bucket) (db : Db)
      → length (remove_each minio lower rows b db).2.attachments ≤ length db.attachments
  unfolding remove_each
  length-remove_each [] b db = ground arith
  length-remove_each (a ∷ rows) b db = elim (Result-cases (Storage.remove minio b a.storage_key)) [
    | inl (b', gone) ↦ ground (
      arith,
      gone,
      length-remove_each rows b' (Attachments.delete a db),
      length-without a.id db.attachments,
    )
    | inr (e, failed) ↦ ground (arith, failed, length-remove_each rows b db)
  ]

  remove_each_shrinks :
      (rows : List Attachment) (b : Bucket) (db : Db)
      → All (λ a. any (has_id a.id) db.attachments ≡ true) rows
      → ((remove_each minio lower rows b db).0 ≡ 0)
        ⊎ (length (remove_each minio lower rows b db).2.attachments < length db.attachments)
  unfolding remove_each
  remove_each_shrinks [] b db h = inl refl
  remove_each_shrinks (a ∷ rows) b db (here, h) =
      elim (Result-cases (Storage.remove minio b a.storage_key)) [
        | inl (b', gone) ↦ inr (
            ground (
              arith,
              gone,
              length-remove_each rows b' (Attachments.delete a db),
              without_shrinks a.id db.attachments here,
            ))
        | inr (e, failed) ↦ ground (arith, failed, remove_each_shrinks rows b db h)
      ]

  -- Whatever the object store answers, the loop of a run ends, within one round more than there are
  -- attachments.
  pub drain_returns :
      (fuel : ℕ) (cutoff : Time) (removed : ℕ) (b : Bucket) (db : Db)
      → length db.attachments < fuel
      → (n : ℕ) × (b' : Bucket) × (db' : Db) × (drain minio lower fuel cutoff removed b db
          ≡ some (ok n, b', db'))
  unfolding drain cleanup_abandoned
  drain_returns zero cutoff removed b db h = absurd (ground arith)
  drain_returns (suc fuel) cutoff removed b db h =
      let rows : List Attachment = list_abandoned cutoff 100 db in
      let batch = remove_each minio lower rows b db in
      elim (Bool-cases (ltb batch.0 100)) [
        | inl e ↦ (removed + batch.0, batch.1, batch.2, rw e refl)
        | inr e ↦ elim (remove_each_shrinks rows b db (listed cutoff 100 db)) [
          | inl none_gone ↦ absurd (ground (arith, none_gone, e))
          | inr fewer ↦
              (let (n, b', db', returned) =
                  drain_returns fuel cutoff (removed + batch.0) batch.1 batch.2
                    (ground (arith, fewer, h)) in
                (n, b', db', rw e returned))
        ]
      ]
