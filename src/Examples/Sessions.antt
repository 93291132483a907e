-- ===== src/Examples/Sessions.antt =====
-- A connection from its handshake to its end.
use chatterbox.Prelude.{ℕ, false, some, List, [], ◌∷◌, ◌++◌, ◌≡◌, ◌↔◌, refl, codes, if◌then◌else◌}
use chatterbox.Prelude.Dict.{lookup}
use chatterbox.Errors.{ok}
use chatterbox.Models.{Text}
use chatterbox.Session.{request}
use chatterbox.Repositories.Users
use chatterbox.Repositories.Conversations
use chatterbox.Services.Auth.{get_current_user}
use chatterbox.Realtime.Events.{presence_offline}
use chatterbox.Realtime.Manager.{sockets_of, discard, is_empty, targets_of}
use chatterbox.Realtime.Manager.Delivery.{deliveries}
use chatterbox.Realtime.Handshake.{extract_access_token, get_websocket_user}
use chatterbox.Realtime.Handshake.Agreement.{handshake_iff_bearer}
use chatterbox.Realtime.Endpoint.{Frame, Live, finish, endpoint}
use chatterbox.Realtime.Endpoint.Lifecycle.{IsAbsent, endpoint_releases, last_socket_goes}
use chatterbox.Examples.World.{jwt, passwords, life, codec, settings, user, db}
use chatterbox.Examples.Stores.{backend}
use chatterbox.Examples.Live.{manager, is_stale, server, draws, payload, typing, tidy}

abbrev live : Live backend codec settings is_stale
live = record { server = server; connections = 3 }

abbrev frames : List Frame
frames = Frame.invalid_json (ok tt) ∷ Frame.payload draws (payload typing) ∷ []

abbrev after : Live backend codec settings is_stale
after = (endpoint backend codec settings is_stale 70 90 3 31 frames live).1

endpoint_releases_example : IsAbsent 31 3 after.server.manager.connections × (after.connections ≡ 3)
endpoint_releases_example = endpoint_releases backend codec settings is_stale 70 90 3 31 frames live

abbrev left : Live backend codec settings is_stale
left = finish backend codec settings is_stale 90 2 21 live

abbrev peers : List ℕ
peers = targets_of backend is_stale (Conversations.peer_ids 2 db) (some 2)

present : is_empty (sockets_of 2 manager.connections) ≡ false
unfolding lookup
present = refl

last_socket_goes_example :
    if is_empty (discard 21 (sockets_of 2 manager.connections))
    then (left.server.db ≡ Users.set_last_seen 2 90 db)
      × (left.server.manager.sent
          ≡ [] ++ deliveries backend is_stale (presence_offline 2 90) peers manager.connections)
    else (left.server.db ≡ db) × (left.server.manager.sent ≡ [])
last_socket_goes_example =
    last_socket_goes backend codec settings is_stale 90 21 2 live tidy refl present

abbrev raw : Text
raw = codes "access_token, abc"

handshake_iff_bearer_example : (get_websocket_user jwt 5 raw db ≡ some (user 1 (codes "ann"))) ↔ (
    (token : Text) × (extract_access_token raw ≡ some token)
    × (request (get_current_user jwt passwords life 5 (some token)) db
        ≡ (ok (user 1 (codes "ann")), db)))
handshake_iff_bearer_example =
    handshake_iff_bearer jwt passwords life 5 raw db (user 1 (codes "ann"))
