-- ===== src/Services/Attachment/Completion.antt =====
-- The checks of `AttachmentService.complete` and of `authorize_download`.
use chatterbox.Prelude.{
  true, none, some, List, [], ◌∷◌, ◌≡◌, refl, sym, ◌∙◌, ◌↔◌, ◌⊎◌, inl, inr, arith, find?,
  update_where, strip, text_eq_iff, is_some, Option-cases, ◌==◌, ==_iff,
}
use chatterbox.Prelude.Rows.{find?_holds}
use chatterbox.Errors.{Exception, ok, raised, Result-cases}
use chatterbox.Models.{Uuid, Time, Text, Attachment, Db}
use chatterbox.Session.{Session, request, request_stored}
use chatterbox.Repositories.Attachments.{get_by_id, save}
use chatterbox.Repositories.Conversations
use chatterbox.Services.Conversation.{get_authorized}
use chatterbox.Storage
use chatterbox.Storage.{Minio, StoredObjectMetadata}
use chatterbox.Storage.Scanning.{Scanner, scan}
use chatterbox.Services.Attachment.{
  AttachmentResponse, to_response, before_semicolon, final_key, finalized, verify, examine, promote,
  complete, authorize_download,
}

triple_eta : {A B C : Type 0} {p : A × B × C} {a : A} → p.0 ≡ a → p ≡ (a, p.1, p.2)
triple_eta e = rw e refl

find?-save :
    (i : Uuid) (now : Time) (key : Text) (xs : List Attachment) (a : Attachment)
    → find? (λ x. x.id == i) xs ≡ some a
    → find? (λ x. x.id == i) (update_where (λ x. x.id == i) (finalized key now) xs)
      ≡ some (finalized key now a)
find?-save i now key [] a h = ground arith
find?-save i now key (x ∷ xs) a h = ground (arith, find?-save i now key xs a)

module _ (minio : Minio) (lower : Text → Text) where
  open minio use {Bucket}

  -- The stored object that a reserved upload asks for: its size and its type, without parameters.
  abbrev pub Fits : Attachment → StoredObjectMetadata → Type 0
  Fits a m =
      (m.size ≡ a.file_size) × (lower (strip (before_semicolon m.content_type)) ≡ a.mime_type)

  -- A completion of an upload that raises leaves the database as it was, and the bucket as others
  -- left it.
  pub complete_raises :
      (scanner : Scanner) (during between : Bucket → Bucket) (now : Time) (i u : Uuid)
      (b b' : Bucket) (db db' : Db) (e : Exception)
      → request_stored (complete minio lower scanner during between now i u) b db
        ≡ (raised e, b', db')
      → (db' ≡ db) × ((b' ≡ b) ⊎ ((b' ≡ during b) ⊎ (b' ≡ between (during b))))
  unfolding complete promote examine verify get_authorized
  complete_raises scanner during between now i u b b' db db' e h = (ground arith, ground arith)

  -- `a` is the row of a checked upload: the object under its key fitted it, the scanner passed what it
  -- then read under the key, and the object that was copied to the final key had, when it was copied,
  -- the etag of the one that fitted.
  pub record Checked (scanner : Scanner) (during between : Bucket → Bucket) (b : Bucket)
      (a : Attachment) : Type 0 where
    pub found : StoredObjectMetadata
    pub copied : Bucket
    pub stated : Storage.stat minio b a.storage_key ≡ ok (some found)
    pub fits : Fits a found
    pub scanned : scan minio scanner (during b) a.storage_key ≡ ok tt
    pub copy :
        Storage.copy_if_unchanged minio
          (between (during b))
          a.storage_key
          (final_key lower a)
          found.etag
        ≡ ok copied

  promote_checks :
      (scanner : Scanner) (during between : Bucket → Bucket) (now : Time) (a : Attachment)
      (b : Bucket) (s s' : Session) (b' : Bucket) (r : AttachmentResponse)
      → promote minio lower scanner during between now a b s ≡ (ok r, b', s')
      → Checked scanner during between b a
  unfolding promote examine verify
  promote_checks scanner during between now a b s s' b' r h =
      elim (Result-cases (Storage.stat minio b a.storage_key)) [
        | inr (e, failed) ↦ ground (arith, failed)
        | inl (found, stated) ↦ elim (Option-cases found) [
          | inl nothing ↦ ground (arith, stated, nothing)
          | inr (m, there) ↦
              elim (Result-cases (
                Storage.copy_if_unchanged minio (between (during b)) a.storage_key
                  (final_key lower a) m.etag)) [
                    | inr (e, failed) ↦ ground (arith, stated, there, failed)
                    | inl (b2, copied) ↦ record {
                      found = m;
                      copied = b2;
                      stated = ground (arith, stated, there);
                      fits = (
                        ground (arith, stated, there),
                        (text_eq_iff _ _).0 (ground (arith, stated, there)),
                      );
                      scanned = ground (arith, stated, there);
                      copy = copied;
                    }
                  ]
        ]
      ]

  promote_saves :
      (scanner : Scanner) (during between : Bucket → Bucket) (now : Time) (a : Attachment)
      (b : Bucket) (s s' : Session) (b' : Bucket) (r : AttachmentResponse)
      → promote minio lower scanner during between now a b s ≡ (ok r, b', s')
      → (s'.committed ≡ save a.id (finalized (final_key lower a) now) s.working)
        × (r ≡ to_response (finalized (final_key lower a) now a))
  unfolding promote examine verify
  promote_saves scanner during between now a b s s' b' r h = ground arith

  -- a completion of a pending row is a promotion by its uploader
  promotion_of_complete :
      (scanner : Scanner) (during between : Bucket → Bucket) (now : Time) (i u : Uuid) (b : Bucket)
      (db db' : Db) (a : Attachment) (b' : Bucket) (r : AttachmentResponse)
      → get_by_id i db ≡ some a
      → a.uploaded_at ≡ none
      → request_stored (complete minio lower scanner during between now i u) b db ≡ (ok r, b', db')
      → (a.uploader_id ≡ u)
        × ((promote minio lower scanner during between now a b
              (record { committed = db; working = db })).0
            ≡ ok r)
        × ((promote minio lower scanner during between now a b
              (record { committed = db; working = db })).2.committed
            ≡ db')
  unfolding complete get_authorized
  promotion_of_complete scanner during between now i u b db db' a b' r found pending h =
      ground (arith, found, pending)

  -- Whatever others do to the bucket between its requests, a completion that succeeds on an upload not
  -- yet marked was asked for by the uploader; the object under the staging key had the reserved size
  -- and type when its metadata were read, the scanner passed what was there when it read, and the copy
  -- to the final key, under the condition that the etag is still that of the metadata, went through;
  -- the row is then marked as uploaded and has the final key.
  pub complete_checks :
      (scanner : Scanner) (during between : Bucket → Bucket) (now : Time) (i u : Uuid)
      (b b' : Bucket) (db db' : Db) (a : Attachment) (r : AttachmentResponse)
      → get_by_id i db ≡ some a
      → a.uploaded_at ≡ none
      → request_stored (complete minio lower scanner during between now i u) b db ≡ (ok r, b', db')
      → (a.uploader_id ≡ u)
        × Checked scanner during between b a
        × (get_by_id i db' ≡ some (finalized (final_key lower a) now a))
  unfolding complete
  complete_checks scanner during between now i u b b' db db' a r found pending h =
      let (mine, promoted, stored) =
        promotion_of_complete scanner during between now i u b db db' a b' r found pending h in
      let begun : Session = record { committed = db; working = db } in
      let end : Session = (promote minio lower scanner during between now a b begun).2 in
      let step : promote minio lower scanner during between now a b begun
          ≡ (ok r, (promote minio lower scanner during between now a b begun).1, end) =
        triple_eta promoted in
      let same : a.id ≡ i =
        (==_iff a.id i).0 (find?_holds (λ x. x.id == i) db.attachments a found) in
      (
        mine,
        promote_checks scanner during between now a b begun end _ r step,
        ground (
          arith,
          same,
          stored,
          (promote_saves scanner during between now a b begun end _ r step).0,
          find?-save i now (final_key lower a) db.attachments a found,
        ),
      )

  authorized_of_complete :
      (scanner : Scanner) (during between : Bucket → Bucket) (now : Time) (i u : Uuid) (b : Bucket)
      (db db' : Db) (a : Attachment) (b' : Bucket) (r : AttachmentResponse)
      → get_by_id i db ≡ some a
      → request_stored (complete minio lower scanner during between now i u) b db ≡ (ok r, b', db')
      → (is_some (Conversations.get_by_id a.conversation_id db) ≡ true)
        × (Conversations.is_member a.conversation_id u db ≡ true)
  unfolding complete get_authorized
  authorized_of_complete scanner during between now i u b db db' a b' r found h =
      ground (arith, found)

  complete_uploaded :
      (scanner : Scanner) (during between : Bucket → Bucket) (now : Time) (i u : Uuid) (b : Bucket)
      (db : Db) (a : Attachment)
      → get_by_id i db ≡ some a
      → is_some a.uploaded_at ≡ true
      → a.uploader_id ≡ u
      → is_some (Conversations.get_by_id a.conversation_id db) ≡ true
      → Conversations.is_member a.conversation_id u db ≡ true
      → request_stored (complete minio lower scanner during between now i u) b db
        ≡ (ok (to_response a), b, db)
  unfolding complete get_authorized
  complete_uploaded scanner during between now i u b db a found uploaded mine exists member =
      ground (arith, found, uploaded, mine, exists, member)

  -- Completing an upload again, after it succeeded and whatever the bucket and the scanner have come
  -- to since, answers the same and changes neither the bucket nor the database.
  pub complete_again :
      (scanner scanner' : Scanner) (during during' between between' : Bucket → Bucket)
      (now now' : Time) (i u : Uuid) (b b' b2 : Bucket) (db db' : Db) (a : Attachment)
      (r : AttachmentResponse)
      → get_by_id i db ≡ some a
      → a.uploaded_at ≡ none
      → request_stored (complete minio lower scanner during between now i u) b db ≡ (ok r, b', db')
      → request_stored (complete minio lower scanner' during' between' now' i u) b2 db'
        ≡ (ok r, b2, db')
  complete_again scanner scanner' during during' between between' now now' i u b b' b2 db db' a r
        found pending h =
      let (mine, promoted, stored) =
        promotion_of_complete scanner during between now i u b db db' a b' r found pending h in
      let begun : Session = record { committed = db; working = db } in
      let end : Session = (promote minio lower scanner during between now a b begun).2 in
      let (saved, answer) =
        promote_saves scanner during between now a b begun end _ r (triple_eta promoted) in
      let (_, checked, row) =
        complete_checks scanner during between now i u b b' db db' a r found pending h in
      let (exists, member) =
        authorized_of_complete scanner during between now i u b db db' a b' r found h in
      let same : db' ≡ save a.id (finalized (final_key lower a) now) db = sym stored ∙ saved in
      rw answer (
        complete_uploaded scanner' during' between' now' i u b2 db'
          (finalized (final_key lower a) now a) row refl mine (rw same exists) (rw same member))

  -- A download is authorized exactly when the attachment is bound to a message, its upload is
  -- complete, its conversation exists, and who asks is a member of it; nothing is changed.
  pub authorize_download_iff :
      (i u : Uuid) (db : Db) (a : Attachment)
      → (request (authorize_download minio lower i u) db ≡ (ok a, db)) ↔ (
          (get_by_id i db ≡ some a)
          × (is_some a.message_id ≡ true)
          × (is_some a.uploaded_at ≡ true)
          × (is_some (Conversations.get_by_id a.conversation_id db) ≡ true)
          × (Conversations.is_member a.conversation_id u db ≡ true))
  unfolding authorize_download get_authorized
  authorize_download_iff i u db a = (λ h. ground arith, λ h. ground (arith, h))
