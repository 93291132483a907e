-- ===== src/Services/Attachment/Cleanup.antt =====
-- The rows after `AttachmentService.cleanup_abandoned`.
use chatterbox.Prelude.{
  ℕ, zero, suc, false, not, List, [], ◌∷◌, ◌≡◌, refl, ◌≢◌, inl, inr, arith, filter, find?, take,
  All, Bool-cases, ◌==◌,
}
use chatterbox.Prelude.Sort.{insert_by, sort_by}
use chatterbox.Errors.{Result-cases}
use chatterbox.Models.{Uuid, Time, Text, Attachment, Db}
use chatterbox.Session.{request}
use chatterbox.Repositories.Attachments
use chatterbox.Repositories.Attachments.{is_abandoned, older, list_abandoned, get_by_id}
use chatterbox.Storage
use chatterbox.Storage.{Minio}
use chatterbox.Services.Attachment.{remove_each, cleanup_abandoned}

module _ (P : Attachment → Type 0) where
  insert_by-All :
      (x : Attachment) (xs : List Attachment) → P x → All P xs → All P (insert_by older x xs)
  unfolding insert_by
  insert_by-All x [] h hs = (h, tt)
  insert_by-All x (y ∷ ys) h (hy, hs) = elim (Bool-cases (older y x)) [
    | inl e ↦ rw e (hy, insert_by-All x ys h hs)
    | inr e ↦ rw e (h, (hy, hs))
  ]

  pub sort_by-All : (xs : List Attachment) → All P xs → All P (sort_by older xs)
  unfolding sort_by
  sort_by-All [] h = tt
  sort_by-All (x ∷ xs) (h, hs) = insert_by-All x (sort_by older xs) h (sort_by-All xs hs)

  pub take-All : (n : ℕ) (xs : List Attachment) → All P xs → All P (take n xs)
  take-All zero xs h = tt
  take-All (suc n) [] h = tt
  take-All (suc n) (x ∷ xs) (h, hs) = (h, take-All n xs hs)

-- a row with an id that survives a filter of another id
find?-filter_other :
    (i j : Uuid) (xs : List Attachment)
    → j ≢ i
    → find? (λ a. a.id == i) (filter (λ a. not (a.id == j)) xs) ≡ find? (λ a. a.id == i) xs
find?-filter_other i j [] ne = refl
find?-filter_other i j (x ∷ xs) ne = ground (arith, ne, find?-filter_other i j xs)

-- the abandoned rows have other ids than one that no abandoned row has
others_of_filter :
    (cutoff : Time) (i : Uuid) (xs : List Attachment)
    → All (λ a. a.id ≡ i → is_abandoned cutoff a ≡ false) xs
    → All (λ a. a.id ≢ i) (filter (is_abandoned cutoff) xs)
others_of_filter cutoff i [] h = tt
others_of_filter cutoff i (x ∷ xs) (here, h) = elim (Bool-cases (is_abandoned cutoff x)) [
  | inl e ↦ rw e ((λ same. (let f = here same in cc)), others_of_filter cutoff i xs h)
  | inr e ↦ rw e (others_of_filter cutoff i xs h)
]

module _ (minio : Minio) (lower : Text → Text) where
  get_by_id-remove_each :
      (i : Uuid) (as' : List Attachment) (b : minio.Bucket) (db : Db)
      → All (λ a. a.id ≢ i) as'
      → get_by_id i (remove_each minio lower as' b db).2 ≡ get_by_id i db
  unfolding remove_each
  get_by_id-remove_each i [] b db h = refl
  get_by_id-remove_each i (a ∷ as') b db (other, h) =
      elim (Result-cases (Storage.remove minio b a.storage_key)) [
        | inl (b', gone) ↦ ground (
          arith,
          gone,
          get_by_id-remove_each i as' b' (Attachments.delete a db) h,
          find?-filter_other i a.id db.attachments other,
        )
        | inr (e, failed) ↦ ground (arith, failed, get_by_id-remove_each i as' b db h)
      ]

  -- Whatever the store answers, a cleanup keeps every row that is bound to a message or not older
  -- than the cutoff: the lookup of an id none of whose rows is abandoned finds what it found before.
  pub cleanup_keeps :
      (cutoff : Time) (limit : ℕ) (b : minio.Bucket) (db : Db) (i : Uuid)
      → All (λ a. a.id ≡ i → is_abandoned cutoff a ≡ false) db.attachments
      → get_by_id i (request (cleanup_abandoned minio lower cutoff limit b) db).1 ≡ get_by_id i db
  unfolding cleanup_abandoned
  cleanup_keeps cutoff limit b db i h =
      let rows = filter (is_abandoned cutoff) db.attachments in
      let found : All (λ a. a.id ≢ i) rows = others_of_filter cutoff i db.attachments h in
      get_by_id-remove_each i (list_abandoned cutoff limit db) b db
        (take-All _ limit (sort_by older rows) (sort_by-All _ rows found))
