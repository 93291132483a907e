-- ===== src/Storage.antt =====
-- backend/app/core/storage.py over the MinIO client, which is a parameter; the children have
-- backend/app/core/scanning.py over the ClamAV daemon, another parameter.
pub mod Framing
pub mod Scanning
pub mod Clamd
use chatterbox.Prelude.{
  ℕ, Bool, true, false, ◌||◌, Option, none, some, List, [], ◌∷◌, codes, text_eq, if◌then◌else◌,
}
use chatterbox.Errors.{failure, object_changed, Result, ok, raised}
use chatterbox.Models.{Text}

pub record StoredObjectMetadata : Type 0 where
  pub size : ℕ
  pub content_type : Text
  pub etag : Text

-- What the client reports of an object; the content type may be missing.
pub record Stat : Type 0 where
  pub size : ℕ
  pub content_type : Option Text
  pub etag : Text

-- A result of the client: an `S3Error` carries its code.
pub data S3Result (A : Type 0) : Type 0 where
  done : A → S3Result A
  s3_error : Text → S3Result A
  other_error : S3Result A

-- The response of `get_object`: the chunks that `stream` gives, and whether it raises after them.
pub record Stream : Type 0 where
  pub chunks : List Text
  pub breaks : Bool

-- The MinIO client on one bucket, which may be missing, and whose contents are a value of `Bucket`.
pub record Minio : Type 1 where
  pub Bucket : Type 0
  pub bucket_exists : Bucket → S3Result Bool
  pub make_bucket : Bucket → S3Result Bucket
  pub get_object : Bucket → Text → S3Result Stream
  pub stat_object : Bucket → Text → S3Result Stat
  pub copy_object : Bucket → Text → Text → Text → S3Result Bucket
  pub remove_object : Bucket → Text → S3Result Bucket
  pub presigned_put_object : Text → ℕ → S3Result Text

-- `result.content_type or "application/octet-stream"`
abbrev or_octet_stream : Option Text → Text
or_octet_stream none = codes "application/octet-stream"
or_octet_stream (some []) = codes "application/octet-stream"
or_octet_stream (some (c ∷ cs)) = c ∷ cs

abbrev is_missing : Text → Bool
is_missing code = text_eq code (codes "NoSuchKey") || text_eq code (codes "NoSuchObject")

abbrev is_changed : Text → Bool
is_changed code = text_eq code (codes "PreconditionFailed") || text_eq code (codes "InvalidRequest")

stat_result : S3Result Stat → Result (Option StoredObjectMetadata)
stat_result (done r) =
    ok (
      some (record { size = r.size; content_type = or_octet_stream r.content_type; etag = r.etag }))
stat_result (s3_error code) = if is_missing code then ok none else raised failure
stat_result other_error = raised failure

copy_result : {B : Type 0} → S3Result B → Result B
copy_result (done b) = ok b
copy_result (s3_error code) = if is_changed code then raised object_changed else raised failure
copy_result other_error = raised failure

unfoldable pub plain_result : {B : Type 0} → S3Result B → Result B
plain_result (done b) = ok b
plain_result _ = raised failure

module _ (minio : Minio) where
  open minio use {
    Bucket, bucket_exists, make_bucket, get_object, stat_object, copy_object, remove_object,
    presigned_put_object,
  }

  unfoldable pub healthcheck : Bucket → Result Bool
  unfolding plain_result
  healthcheck b = plain_result (bucket_exists b)

  abbrev pub made : Bucket → Result Bool → Result Bucket
  made b (raised e) = raised e
  made b (ok true) = ok b
  made b (ok false) = plain_result (make_bucket b)

  unfoldable pub ensure_bucket : Bucket → Result Bucket
  unfolding plain_result
  ensure_bucket b = made b (plain_result (bucket_exists b))

  unfoldable pub get : Bucket → Text → Result Stream
  unfolding plain_result
  get b storage_key = plain_result (get_object b storage_key)

  unfoldable pub stat : Bucket → Text → Result (Option StoredObjectMetadata)
  unfolding stat_result
  stat b storage_key = stat_result (stat_object b storage_key)

  unfoldable pub copy_if_unchanged : Bucket → Text → Text → Text → Result Bucket
  unfolding copy_result
  copy_if_unchanged b source_key destination_key etag =
      copy_result (copy_object b source_key destination_key etag)

  unfoldable pub remove : Bucket → Text → Result Bucket
  unfolding plain_result
  remove b storage_key = plain_result (remove_object b storage_key)

  unfoldable pub presigned_put : Text → ℕ → Result Text
  unfolding plain_result
  presigned_put storage_key expires = plain_result (presigned_put_object storage_key expires)
