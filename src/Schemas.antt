-- ===== src/Schemas.antt =====
-- backend/app/schemas: the validation of request bodies, and the responses on users. A validator
-- gives `none` where pydantic raises.
pub mod Filenames
use chatterbox.Prelude.{
  ℕ, Bool, true, false, ◌&&◌, ◌||◌, not, Option, none, some, List, [], ◌∷◌, map, length, get_last?,
  unique, leb, ltb, ◌==◌, codes, text_eq, strip, split_on, if◌then◌else◌,
}
use chatterbox.Models.{Uuid, Time, Text, User}
use chatterbox.Services.Auth.{RegisterRequest}

pub record UserResponse : Type 0 where
  pub id : Uuid
  pub username : Text
  pub email : Text
  pub created_at : Time
  pub updated_at : Time

pub record UserPublicResponse : Type 0 where
  pub id : Uuid
  pub username : Text
  pub created_at : Time
  pub last_seen : Option Time

-- `UserResponse.model_validate` and `UserPublicResponse.model_validate`
abbrev pub user_response : User → UserResponse
user_response u = record {
  id = u.id;
  username = u.username;
  email = u.email;
  created_at = u.created_at;
  updated_at = u.updated_at;
}

abbrev pub user_public_response : User → UserPublicResponse
user_public_response u = record {
  id = u.id;
  username = u.username;
  created_at = u.created_at;
  last_seen = u.last_seen;
}

-- a length between two bounds
abbrev pub within : {A : Type 0} → ℕ → ℕ → List A → Bool
within low high xs = leb low (length xs) && leb (length xs) high

abbrev is_nil : {A : Type 0} → List A → Bool
is_nil [] = true
is_nil (x ∷ xs) = false

abbrev last_of : List Text → Text
last_of ts = elim (get_last? ts) [ none ↦ [] | some t ↦ t ]

-- `replace("\\", "/")`
abbrev pub slashed : Text → Text
slashed value = map (λ c. if c == 92 then 47 else c) value

unfoldable pub normalize_filename : Text → Option Text
normalize_filename value =
    let normalized = last_of (split_on 47 (slashed (strip value))) in
    if is_nil normalized || (text_eq normalized (codes ".") || text_eq normalized (codes ".."))
    then none
    else some normalized

pub record AttachmentReserveRequest : Type 0 where
  pub filename : Text
  pub mime_type : Text
  pub file_size : ℕ

abbrev pub with_filename :
    (Text → Text) → AttachmentReserveRequest → Option Text → Option AttachmentReserveRequest
with_filename lower r none = none
with_filename lower r (some name) =
    some (record r { filename = name; mime_type = lower (strip r.mime_type) })

unfoldable pub validate_reserve :
    (Text → Text) → AttachmentReserveRequest → Option AttachmentReserveRequest
unfolding normalize_filename
validate_reserve lower r =
    if within 1 255 r.filename && (within 1 120 r.mime_type && ltb 0 r.file_size)
    then with_filename lower r (normalize_filename r.filename)
    else none

pub record MessageCreate : Type 0 where
  pub content : Text
  pub attachment_ids : List Uuid

-- `require_content_or_attachment`, behind the bounds of the fields
unfoldable pub validate_message : MessageCreate → Option MessageCreate
validate_message m =
    let content = strip m.content in
    if within 0 4000 m.content && within 0 10 m.attachment_ids
    then (if is_nil content && is_nil m.attachment_ids
        then none
        else if unique m.attachment_ids
        then some (record m { content = content })
        else none)
    else none

-- the characters of a user name: `[A-Za-z0-9_]`
abbrev is_word : ℕ → Bool
is_word c = (leb 65 c && leb c 90) || (leb 97 c && leb c 122) || (leb 48 c && leb c 57) || c == 95

abbrev all_word : Text → Bool
all_word [] = true
all_word (c ∷ cs) = is_word c && all_word cs

abbrev with_email : (Text → Text) → RegisterRequest → Option Text → Option RegisterRequest
with_email lower r none = none
with_email lower r (some email) =
    some (record r { username = lower r.username; email = lower email })

-- `email_str` is the validation of pydantic's `EmailStr`
unfoldable pub validate_register :
    (Text → Option Text) → (Text → Text) → RegisterRequest → Option RegisterRequest
validate_register email_str lower r =
    if within 3 32 r.username && (all_word r.username && within 8 128 r.password)
    then with_email lower r (email_str r.email)
    else none

pub record LoginRequest : Type 0 where
  pub login : Text
  pub password : Text

unfoldable pub validate_login : LoginRequest → Option LoginRequest
validate_login r = if within 3 320 r.login && within 1 128 r.password then some r else none
