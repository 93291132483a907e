-- ===== src/Errors.antt =====
-- backend/app/core/errors.py: the errors that the services raise, one constructor for each code,
-- and the outcome of a call. The human-readable messages are not modelled.
use chatterbox.Prelude.{ℕ, ◌≡◌, refl, ◌⊎◌, inl, inr}

pub data AppError : Type 0 where
  user_already_exists invalid_credentials invalid_refresh_token : AppError
  authentication_required invalid_access_token : AppError
  invalid_participant user_not_found conversation_create_failed : AppError
  conversation_not_found conversation_access_denied conversation_forbidden : AppError
  empty_message too_many_attachments duplicate_attachments invalid_attachments : AppError
  invalid_cursor message_not_found rate_limited : AppError
  attachment_not_found attachment_not_uploaded attachment_size_mismatch : AppError
  attachment_type_mismatch attachment_changed attachment_type_not_allowed : AppError
  attachment_too_large attachment_scan_unavailable attachment_infected : AppError

abbrev pub status_code : AppError → ℕ
status_code AppError.user_already_exists = 409
status_code AppError.invalid_credentials = 401
status_code AppError.invalid_refresh_token = 401
status_code AppError.authentication_required = 401
status_code AppError.invalid_access_token = 401
status_code AppError.user_not_found = 404
status_code AppError.conversation_create_failed = 500
status_code AppError.conversation_not_found = 404
status_code AppError.conversation_access_denied = 403
status_code AppError.conversation_forbidden = 403
status_code AppError.message_not_found = 404
status_code AppError.rate_limited = 429
status_code AppError.attachment_not_found = 404
status_code AppError.attachment_not_uploaded = 409
status_code AppError.attachment_changed = 409
status_code AppError.attachment_scan_unavailable = 503
status_code _ = 422

-- What a call can raise: an `AppError`, a violated unique constraint, an `ObjectChangedError`, an
-- `OSError` (a `TimeoutError` is one), or any other exception of a library or a service.
pub data Exception : Type 0 where
  app_error : AppError → Exception
  integrity_error object_changed os_error failure : Exception

pub data Result {ℓ} (A : Type ℓ) : Type ℓ where
  ok : A → Result A
  raised : Exception → Result A

pub Result-cases {ℓ} :
    {A : Type ℓ} (r : Result A) → ((a : A) × (r ≡ ok a)) ⊎ ((e : Exception) × (r ≡ raised e))
Result-cases (ok a) = inl (a, refl)
Result-cases (raised e) = inr (e, refl)
