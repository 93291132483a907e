-- ===== src/Services/Attachment.antt =====
-- backend/app/services/attachment_service.py
pub mod Completion
pub mod Cleanup
use chatterbox.Prelude.{
  ℕ, ◌+◌, ◌||◌, not, Option, none, some, List, [], ◌∷◌, ◌++◌, any, reverse, take, codes, text_eq,
  ◌==◌, ltb, is_none, is_some, strip, if◌then◌else◌,
}
use chatterbox.Errors.{
  app_error, object_changed, Result, ok, raised, attachment_not_found, attachment_not_uploaded,
  attachment_size_mismatch, attachment_type_mismatch, attachment_changed,
  attachment_type_not_allowed, attachment_too_large,
}
use chatterbox.Models.{Uuid, Time, Text, Attachment, Db}
use chatterbox.Session.{
  Exec, pure, lift, gets, or_raise, raise_if, modify, commit, ◌>>=◌, ◌>>◌, Stored, keeping, reading,
  meanwhile, writing, trying, ◌>>-◌,
}
use chatterbox.Repositories.Attachments
use chatterbox.Services.Conversation.{get_authorized}
use chatterbox.Storage
use chatterbox.Storage.{Minio, StoredObjectMetadata}
use chatterbox.Storage.Scanning.{Scanner, scan}
use chatterbox.UuidText.{str}

abbrev pub allowed_mime_types : List Text
allowed_mime_types =
    codes "application/pdf"
    ∷ codes "application/zip"
    ∷ codes "image/gif"
    ∷ codes "image/jpeg"
    ∷ codes "image/png"
    ∷ codes "image/webp"
    ∷ codes "text/plain"
    ∷ []

-- schemas/attachment.py
pub record AttachmentResponse : Type 0 where
  pub id : Uuid
  pub filename : Text
  pub mime_type : Text
  pub file_size : ℕ
  pub uploaded_at : Option Time
  pub download_url : Text

pub record AttachmentUploadResponse : Type 0 where
  pub attachment : AttachmentResponse
  pub upload_url : Text
  pub content_type : Text
  pub expires_at : Time

pub to_response : Attachment → AttachmentResponse
to_response a = record {
  id = a.id;
  filename = a.filename;
  mime_type = a.mime_type;
  file_size = a.file_size;
  uploaded_at = a.uploaded_at;
  download_url = codes "/attachments/" ++ (str a.id ++ codes "/download");
}

-- `_validate_metadata`
validate_metadata : ℕ → Text → ℕ → Exec (Unit {0})
validate_metadata max_bytes mime_type file_size = do
  raise_if (not (any (text_eq mime_type) allowed_mime_types)) attachment_type_not_allowed
  raise_if (ltb max_bytes file_size) attachment_too_large

-- The extension from the last dot on, the text being reversed: none without a dot, with a dot at
-- either end only.
suffix_from : Text → Text → Text
suffix_from seen [] = []
suffix_from seen (c ∷ []) = []
suffix_from seen (c ∷ d ∷ cs) =
    let rest = suffix_from (c ∷ seen) (d ∷ cs) in if c == 46 then c ∷ seen else rest

abbrev without_last_dot : Text → Text
without_last_dot (c ∷ []) = []
without_last_dot s = s

-- `Path(filename).suffix` of a name without slashes
pub suffix : Text → Text
unfolding suffix_from
suffix filename = without_last_dot (suffix_from [] (reverse filename))

-- `split(";", 1)[0]`
unfoldable pub before_semicolon : Text → Text
before_semicolon [] = []
before_semicolon (c ∷ cs) = let rest = before_semicolon cs in if c == 59 then [] else c ∷ rest

-- `f"{prefix}/{conversation_id}/{uploader_id}/{attachment_id}{suffix}"`
pub storage_key : Text → Uuid → Uuid → Uuid → Text → Text
storage_key prefix conversation_id uploader_id attachment_id extension =
    prefix
    ++ (47 ∷ str conversation_id ++ (47 ∷ str uploader_id ++ (47 ∷ str attachment_id ++ extension)))

-- the extension in a storage key; `lower` is Python's `str.lower`
abbrev key_extension : (Text → Text) → Text → Text
key_extension lower filename = take 16 (lower (suffix filename))

unfoldable pub final_key : (Text → Text) → Attachment → Text
unfolding storage_key suffix
final_key lower a =
    storage_key (codes "objects") a.conversation_id a.uploader_id a.id
      (key_extension lower a.filename)

abbrev pending_attachment : (Text → Text) → Uuid → Time → Uuid → Uuid → Text → Text → ℕ → Attachment
pending_attachment lower id now conversation_id uploader_id filename mime_type file_size = record {
  id = id;
  conversation_id = conversation_id;
  uploader_id = uploader_id;
  message_id = none;
  filename = filename;
  mime_type = mime_type;
  file_size = file_size;
  storage_key =
      storage_key (codes "pending") conversation_id uploader_id id (key_extension lower filename);
  created_at = now;
  uploaded_at = none;
}

-- `except ObjectChangedError`
abbrev pub or_changed : {A : Type 0} → Result A → Result A
or_changed (ok a) = ok a
or_changed (raised object_changed) = raised (app_error attachment_changed)
or_changed (raised e) = raised e

abbrev pub finalized : Text → Time → Attachment → Attachment
finalized key now a = record a { storage_key = key; uploaded_at = some now }

module _ (minio : Minio) (lower : Text → Text) where
  open minio use {Bucket}

  -- `expires` is the life of the upload URL.
  unfoldable pub reserve :
      ℕ → ℕ → Uuid → Time → Uuid → Uuid → Text → Text → ℕ → Exec AttachmentUploadResponse
  unfolding validate_metadata
  reserve max_bytes expires id now conversation_id uploader_id filename mime_type file_size = do
    _ ← get_authorized conversation_id uploader_id
    validate_metadata max_bytes mime_type file_size
    let attachment =
        pending_attachment lower id now conversation_id uploader_id filename mime_type file_size
    modify (Attachments.add attachment)
    upload_url ← lift (Storage.presigned_put minio attachment.storage_key expires)
    commit
    pure (record {
      attachment = to_response attachment;
      upload_url = upload_url;
      content_type = mime_type;
      expires_at = now + expires;
    })

  -- The checks of `complete` on the stored object's metadata.
  unfoldable pub verify : Attachment → Option StoredObjectMetadata → Exec StoredObjectMetadata
  unfolding before_semicolon
  verify a found = do
    m ← or_raise found attachment_not_uploaded
    raise_if (not (m.size == a.file_size)) attachment_size_mismatch
    raise_if (not (text_eq (lower (strip (before_semicolon m.content_type))) a.mime_type))
        attachment_type_mismatch
    pure m

  -- what is checked of the stored object's metadata
  unfoldable pub examine : Attachment → Bucket → Exec StoredObjectMetadata
  unfolding verify
  examine a b = do found ← lift (Storage.stat minio b a.storage_key); verify a found

  -- the row of a finalized upload
  abbrev finalize : Time → Attachment → Exec AttachmentResponse
  finalize now a = do
    modify (Attachments.save a.id (finalized (final_key lower a) now))
    commit
    pure (to_response (finalized (final_key lower a) now a))

  -- The part of `complete` for an upload that is not yet marked. `during` and `between` are what others
  -- do to the bucket after the metadata are read and after the object is scanned.
  unfoldable pub promote :
      Scanner
      → (Bucket → Bucket)
      → (Bucket → Bucket)
      → Time
      → Attachment
      → Stored Bucket AttachmentResponse
  unfolding examine
  promote scanner during between now a = reading (examine a) >>- λ m. meanwhile during >>- λ _.
      reading (λ b. lift (scan minio scanner b a.storage_key)) >>- λ _. meanwhile between >>- λ _.
      writing (λ b.
        or_changed (Storage.copy_if_unchanged minio b a.storage_key (final_key lower a) m.etag))
      >>- λ _. keeping (finalize now a) >>- λ response.
          trying (λ b. Storage.remove minio b a.storage_key) >>- λ _. keeping (pure response)

  -- the guards of `complete`
  abbrev pub requested : Uuid → Uuid → Exec Attachment
  requested attachment_id current_user_id = do
    found ← gets (Attachments.get_by_id attachment_id)
    a ← or_raise found attachment_not_found
    raise_if (not (a.uploader_id == current_user_id)) attachment_not_found
    _ ← get_authorized a.conversation_id current_user_id
    pure a

  abbrev complete_requested :
      Scanner
      → (Bucket → Bucket)
      → (Bucket → Bucket)
      → Time
      → Attachment
      → Stored Bucket AttachmentResponse
  complete_requested scanner during between now a b s =
      let promoted = promote scanner during between now a b s in
      if is_some a.uploaded_at then (ok (to_response a), b, s) else promoted

  unfoldable pub complete :
      Scanner
      → (Bucket → Bucket)
      → (Bucket → Bucket)
      → Time
      → Uuid
      → Uuid
      → Stored Bucket AttachmentResponse
  complete scanner during between now attachment_id current_user_id =
      keeping (requested attachment_id current_user_id) >>- λ a.
      complete_requested scanner during between now a

  unfoldable pub authorize_download : Uuid → Uuid → Exec Attachment
  authorize_download attachment_id current_user_id = do
    found ← gets (Attachments.get_by_id attachment_id)
    a ← or_raise found attachment_not_found
    raise_if (is_none a.message_id || is_none a.uploaded_at) attachment_not_found
    _ ← get_authorized a.conversation_id current_user_id
    pure a

  -- The loop of `cleanup_abandoned`: a row whose object cannot be removed is kept.
  unfoldable pub remove_each : List Attachment → Bucket → Db → ℕ × Bucket × Db
  remove_each [] b db = (0, b, db)
  remove_each (a ∷ as') b db = elim (Storage.remove minio b a.storage_key) [
    | ok b' ↦ let (n, b2, db2) = remove_each as' b' (Attachments.delete a db) in (n + 1, b2, db2)
    | raised e ↦ remove_each as' b db
  ]

  unfoldable pub cleanup_abandoned : Time → ℕ → Bucket → Exec (ℕ × Bucket)
  unfolding remove_each
  cleanup_abandoned cutoff limit b s =
      let (n, b', db) =
        remove_each (Attachments.list_abandoned cutoff limit s.working) b s.working in
      (ok (n, b'), record { committed = db; working = db })
