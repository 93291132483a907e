-- ===== src/Repositories/Attachments.antt =====
-- backend/app/repositories/attachment_repository.py
use chatterbox.Prelude.{
  ℕ, Bool, ◌&&◌, not, Option, List, ◌++◌, [], ◌∷◌, filter, find?, take, update_where, mem, ◌==◌,
  ltb, is_none,
}
use chatterbox.Prelude.Sort.{sort_by}
use chatterbox.Models.{Uuid, Time, Attachment, Db}

abbrev pub add : Attachment → Db → Db
add attachment db = record db { attachments = db.attachments ++ attachment ∷ [] }

-- also `get_by_id_for_update`, which locks the row
abbrev pub get_by_id : Uuid → Db → Option Attachment
get_by_id attachment_id db = find? (λ a. a.id == attachment_id) db.attachments

abbrev pub lock_for_message : List Uuid → Db → List Attachment
lock_for_message [] db = []
lock_for_message (i ∷ is) db = filter (λ a. mem a.id (i ∷ is)) db.attachments

abbrev pub is_abandoned : Time → Attachment → Bool
is_abandoned cutoff a = is_none a.message_id && ltb a.created_at cutoff

abbrev pub older : Attachment → Attachment → Bool
older a b = ltb a.created_at b.created_at

-- no other transaction holds a lock, so SKIP LOCKED skips nothing
abbrev pub list_abandoned : Time → ℕ → Db → List Attachment
list_abandoned cutoff limit db =
    take limit (sort_by older (filter (is_abandoned cutoff) db.attachments))

abbrev pub delete : Attachment → Db → Db
delete attachment db = record db {
  attachments = filter (λ a. not (a.id == attachment.id)) db.attachments;
}

-- a changed row, written back by its primary key
abbrev pub save : Uuid → (Attachment → Attachment) → Db → Db
save attachment_id f db = record db {
  attachments = update_where (λ a. a.id == attachment_id) f db.attachments;
}
