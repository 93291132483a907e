-- ===== src/Tokens.antt =====
-- backend/app/core/security.py over PyJWT and pwdlib, which are parameters.
use chatterbox.Prelude.{ℕ, ◌+◌, ◌≤◌, Bool, true, false, Option, none, some, ◌≡◌, if◌then◌else◌}
use chatterbox.Models.{Uuid, Time, Text}

pub data TokenType : Type 0 where
  access refresh other : TokenType

-- The claims of a token. `sub` and `jti` are `none` where the claim is missing or `UUID` refuses it.
pub record Claims : Type 0 where
  pub sub : Option Uuid
  pub token_type : TokenType
  pub jti : Option Uuid
  pub iat : Time
  pub exp : Option Time

-- `jwt.encode` and `jwt.decode` under the configured secret and algorithm, at a time; `none` for
-- any `PyJWTError`. The laws: what was encoded is read back until the second in which it expires,
-- and the claims of a token do not depend on the time at which it is read.
pub record Jwt : Type 0 where
  pub encode : Claims → Text
  pub decode : Time → Text → Option Claims
  pub decode-encode :
      (now : Time) (c : Claims) (e : Time)
      → c.exp ≡ some e
      → now + 1_000_000 ≤ e
      → (p : Claims) × (decode now (encode c) ≡ some p)
        × (p.sub ≡ c.sub)
        × (p.token_type ≡ c.token_type)
        × (p.jti ≡ c.jti)
        × ((x : Time) × (p.exp ≡ some x))
  pub decode_stable :
      (now now' : Time) (t : Text) (p q : Claims)
      → decode now t ≡ some p
      → decode now' t ≡ some q
      → p ≡ q

-- `PasswordHash.recommended()`: a hash takes a fresh salt.
pub record Passwords : Type 0 where
  pub hash : ℕ → Text → Text
  pub verify : Text → Text → Bool
  pub verify-hash : (salt : ℕ) (password : Text) → verify password (hash salt password) ≡ true

pub record TokenPayload : Type 0 where
  pub subject : Uuid
  pub token_type : TokenType
  pub jti : Uuid
  pub expires_at : Time

abbrev pub same_type : TokenType → TokenType → Bool
same_type TokenType.access TokenType.access = true
same_type TokenType.refresh TokenType.refresh = true
same_type _ _ = false

-- the encoded token, its `uuid4()` and its expiry
abbrev pub claims : Time → Uuid → Uuid → TokenType → Time → Claims
claims now jti subject token_type lifetime = record {
  sub = some subject;
  token_type = token_type;
  jti = some jti;
  iat = now;
  exp = some (now + lifetime);
}

unfoldable pub payload_of : TokenType → Claims → Option TokenPayload
payload_of expected c =
    if same_type c.token_type expected
    then (elim c.sub [
      | none ↦ none
      | some subject ↦ elim c.jti [
        | none ↦ none
        | some jti ↦ elim c.exp [
          | none ↦ none
          | some e ↦
              some (record { subject = subject; token_type = expected; jti = jti; expires_at = e })
        ]
      ]
    ])
    else none

module _ (jwt : Jwt) where
  unfoldable pub create_token : Time → Uuid → Uuid → TokenType → Time → Text × Uuid × Time
  create_token now jti subject token_type lifetime =
      (jwt.encode (claims now jti subject token_type lifetime), jti, now + lifetime)

  -- `none` for an `InvalidTokenError`
  unfoldable pub decode_token : Time → Text → TokenType → Option TokenPayload
  unfolding payload_of
  decode_token now token expected = elim (jwt.decode now token) [
    | none ↦ none
    | some c ↦ payload_of expected c
  ]
