-- ===== src/Realtime/Handshake.antt =====
-- backend/app/websocket/auth.py: the token in the WebSocket handshake.
pub mod Agreement
use chatterbox.Prelude.{
  Bool, true, false, ◌&&◌, Option, none, some, List, [], ◌∷◌, ◌≡◌, ◌↔◌, arith, map, strip, split_on,
  codes, text_eq, Option-cases, inl, inr, if◌then◌else◌,
}
use chatterbox.Models.{Uuid, Time, Text, User, Db}
use chatterbox.Repositories.Users
use chatterbox.Tokens.{Jwt, TokenType, decode_token}

-- a text that Python takes for true
abbrev given : Text → Option Text
given [] = none
given (c ∷ cs) = some (c ∷ cs)

-- the test on the list of protocols
abbrev second_of_two : List Text → Option Text
second_of_two (first ∷ second ∷ []) =
    if text_eq first (codes "access_token") then given second else none
second_of_two protocols = none

-- `extract_access_token`, on the header `sec-websocket-protocol`
pub extract_access_token : Text → Option Text
extract_access_token raw_protocols = second_of_two (map strip (split_on b',' raw_protocols))

-- `get_websocket_user`; `none` is a `WebSocketException` with code 1008
pub get_websocket_user : Jwt → Time → Text → Db → Option User
unfolding extract_access_token
get_websocket_user jwt now raw_protocols db = elim (extract_access_token raw_protocols) [
  | none ↦ none
  | some token ↦ elim (decode_token jwt now token TokenType.access) [
    | none ↦ none
    | some payload ↦ Users.get_by_id payload.subject db
  ]
]
