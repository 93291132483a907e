-- ===== src/Examples/Live.antt =====
-- Connections, deliveries and events of one instance without a backend.
use chatterbox.Prelude.{Bool, true, false, none, some, [], ◌∷◌, ◌≡◌, refl, codes, All, arith, ◌==◌}
use chatterbox.Prelude.Dict.{lookup}
use chatterbox.Errors.{ok}
use chatterbox.Realtime.Events.{Event, ClientEvent}
use chatterbox.Realtime.Manager.{Socket, Manager, sockets_of, disconnect, deliver_to_user_local}
use chatterbox.Realtime.Manager.Sockets.{IsTidy}
use chatterbox.Realtime.Manager.Stale.{stale_delivery_hides_offline}
use chatterbox.Realtime.Handlers.{RawType, Payload, Draws, Server, event_type}
use chatterbox.Examples.World.{codec, settings, db}
use chatterbox.Examples.Stores.{backend}

-- user 1 on the sockets 11 and 12, user 2 on the socket 21
abbrev pub manager : Manager backend
manager = record {
  connections = (1, 11 ∷ 12 ∷ []) ∷ (2, 21 ∷ []) ∷ [];
  attached = false;
  shared = tt;
  timers = [];
  sent = [];
}

abbrev pub is_stale : Socket → Bool
is_stale w = w == 21

abbrev pub event : Event
event = Event.presence_online 3

pub tidy : IsTidy manager.connections
unfolding lookup
tidy u e = ground (arith, e)

stale_socket : All (λ w. is_stale w ≡ true) (sockets_of 2 manager.connections)
unfolding lookup
stale_socket = (refl, tt)

stale_delivery_hides_offline_example :
    (sockets_of 2 (deliver_to_user_local backend is_stale 2 event manager).connections ≡ [])
    × ((disconnect backend 2 21 (deliver_to_user_local backend is_stale 2 event manager)).0 ≡ false)
stale_delivery_hides_offline_example =
    stale_delivery_hides_offline backend is_stale 2 21 event manager tidy stale_socket

abbrev pub server : Server backend codec settings is_stale
server = record { db = db; manager = manager; counted = [] }

abbrev pub draws : Draws
draws = record { now = 70; message_id = 104; receipt_id = λ u. u; reply = ok tt }

abbrev pub payload : RawType → Payload
payload raw_type = record {
  request_id = none;
  raw_type = raw_type;
  fields = some (ClientEvent.typing_start 50);
}

abbrev pub typing : RawType
typing = RawType.string (codes "typing.start")

typing_label : event_type (payload typing).raw_type ≡ ok (codes "typing.start")
unfolding event_type
typing_label = refl
