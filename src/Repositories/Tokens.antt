-- ===== src/Repositories/Tokens.antt =====
-- backend/app/repositories/token_repository.py
use chatterbox.Prelude.{
  Bool, ◌&&◌, Option, some, ◌++◌, [], ◌∷◌, find?, update_where, ◌==◌, ltb, is_none,
}
use chatterbox.Models.{Uuid, Time, RefreshToken, Db}

abbrev pub add : RefreshToken → Db → Db
add token db = record db { refresh_tokens = db.refresh_tokens ++ token ∷ [] }

-- The WHERE clause of `get_active`.
abbrev pub is_active : Time → Uuid → RefreshToken → Bool
is_active now jti t = (t.jti == jti) && (is_none t.revoked_at && ltb now t.expires_at)

abbrev pub get_active : Time → Uuid → Db → Option RefreshToken
get_active now jti db = find? (is_active now jti) db.refresh_tokens

-- the loaded row is written back by its primary key
abbrev pub revoke : Time → RefreshToken → Db → Db
revoke now token db = record db {
  refresh_tokens =
      update_where (λ t. t.id == token.id) (λ t. record t { revoked_at = some now })
        db.refresh_tokens;
}
