-- ===== src/Examples/Uploads.antt =====
-- Completing, downloading and cleaning up.
use chatterbox.Prelude.{
  List, ◌++◌, true, none, some, [], ◌∷◌, ◌≡◌, ◌↔◌, refl, codes, arith, is_some, strip,
}
use chatterbox.Prelude.Dict.{lookup, put, remove}
use chatterbox.Errors.{Result, ok}
use chatterbox.Models.{Text, Attachment, Db}
use chatterbox.Session.{request, request_stored}
use chatterbox.Repositories.Attachments.{get_by_id}
use chatterbox.Repositories.Conversations
use chatterbox.Services.Conversation.{get_authorized}
use chatterbox.Services.Attachment.{
  AttachmentResponse, to_response, final_key, finalized, promote, examine, verify, complete,
  authorize_download, cleanup_abandoned, before_semicolon,
}
use chatterbox.Services.Attachment.Completion.{Checked, complete_checks, authorize_download_iff}
use chatterbox.Services.Attachment.Cleanup.{cleanup_keeps}
use chatterbox.Storage
use chatterbox.Storage.Framing.{concat}
use chatterbox.Storage.{Stat, stat, copy_if_unchanged}
use chatterbox.Storage.Scanning.{
  disabled, clamav, scan, counted_scan, Daemon, bytes, ends_with, clean,
}
use chatterbox.Storage.Clamd.{Conforms, scan_passes_iff}
use chatterbox.Examples.World.{minio, lower, upload, db}

abbrev untouched : minio.Bucket → minio.Bucket
untouched b = b

-- the object under the staging key of upload 303
abbrev pub bucket : minio.Bucket
bucket =
    (303 ∷ [], record { size = 9; content_type = some (codes "image/png; q=1"); etag = codes "e" })
    ∷ []

abbrev completed : Result AttachmentResponse × minio.Bucket × Db
completed = request_stored (complete minio lower disabled untouched untouched 70 303 1) bucket db

abbrev answer : Attachment
answer = finalized (final_key lower (upload 303 none none)) 70 (upload 303 none none)

abbrev bucket_after : minio.Bucket
bucket_after =
    (
      final_key lower (upload 303 none none),
      record { size = 9; content_type = some (codes "image/png; q=1"); etag = codes "e" },
    )
    ∷ []

done : completed ≡ (ok (to_response answer), bucket_after, completed.2)
unfolding complete promote examine verify before_semicolon get_authorized stat copy_if_unchanged
    scan final_key Storage.remove lookup strip remove put
done = refl

complete_checks_example :
    ((upload 303 none none).uploader_id ≡ 1)
    × Checked minio lower disabled untouched untouched bucket (upload 303 none none)
    × (get_by_id 303 completed.2 ≡ some answer)
complete_checks_example =
    complete_checks minio lower disabled untouched untouched 70 303 1 bucket bucket_after db
      completed.2 (upload 303 none none) (to_response answer) refl refl done

cleanup_keeps_example :
    get_by_id 301 (request (cleanup_abandoned minio lower 90 100 bucket) db).1 ≡ get_by_id 301 db
cleanup_keeps_example =
    cleanup_keeps minio lower 90 100 bucket db 301
      ((λ _. refl), ((λ e. absurd (omega arith)), ((λ e. absurd (omega arith)), tt)))

abbrev chunks : List Text
chunks = codes "PK" ∷ codes "!" ∷ []

-- a daemon that finds nothing, and replies in two parts
abbrev fine : Daemon
fine = record {
  connects = true;
  takes = λ sent. true;
  answer = λ sent. bytes (codes "stream: ") ∷ bytes (codes "OK" ++ 0 ∷ []) ∷ [];
  decode = λ t. t;
}

abbrev no_finding : Text → Text
no_finding t = codes "stream: OK"

fine-Conforms : Conforms fine no_finding
fine-Conforms = record {
  reachable = refl;
  accepts = λ sent. refl;
  answers = λ fuel sent content left h. (
    codes "stream: " ∷ (codes "OK" ++ 0 ∷ []) ∷ [],
    refl,
    refl,
    (omega arith, (omega arith, tt)),
  );
  short = λ content. omega arith;
  without_nul = λ content. refl;
  decoded = λ content. refl;
}

scan_passes_iff_example :
    ((scan minio (clamav fine) bucket (303 ∷ []) ≡ ok tt)
      ↔ (ends_with (codes "OK") (no_finding (concat chunks)) ≡ true))
    × (((counted_scan minio (clamav fine) bucket (303 ∷ [])).1 ≡ some clean)
        ↔ (ends_with (codes "OK") (no_finding (concat chunks)) ≡ true))
unfolding Storage.get Storage.plain_result lookup
scan_passes_iff_example =
    scan_passes_iff fine no_finding minio bucket (303 ∷ []) chunks fine-Conforms
      ((omega arith, omega arith), ((omega arith, omega arith), tt)) refl

authorize_download_iff_example :
    (request (authorize_download minio lower 301 2) db ≡ (ok (upload 301 (some 101) (some 6)), db))
    ↔ ((get_by_id 301 db ≡ some (upload 301 (some 101) (some 6)))
        × (is_some (upload 301 (some 101) (some 6)).message_id ≡ true)
        × (is_some (upload 301 (some 101) (some 6)).uploaded_at ≡ true)
        × (is_some (Conversations.get_by_id 50 db) ≡ true)
        × (Conversations.is_member 50 2 db ≡ true))
authorize_download_iff_example =
    authorize_download_iff minio lower 301 2 db (upload 301 (some 101) (some 6))
