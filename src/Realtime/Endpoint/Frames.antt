-- ===== src/Realtime/Endpoint/Frames.antt =====
-- The frames of a connection: which of them end it, and what is counted.
use chatterbox.Prelude.{ℕ, suc, Bool, true, false, List, [], ◌∷◌}
use chatterbox.Prelude.Dict.{nat_eq}
use chatterbox.Config.{Settings}
use chatterbox.Errors.{Result}
use chatterbox.Services.History.{CursorCodec}
use chatterbox.Realtime.Manager.{Backend, Socket}
use chatterbox.Realtime.Handlers.{RawType, Server}
use chatterbox.Realtime.Endpoint.{Frame, invalid_json, payload}

abbrev is_unhashable_type : RawType → Bool
is_unhashable_type RawType.unhashable = true
is_unhashable_type RawType.missing = false
is_unhashable_type RawType.hashable = false
is_unhashable_type (RawType.string t) = false

-- whether a frame holds a payload whose `type` the dispatcher cannot hash
abbrev pub is_unhashable : Frame → Bool
is_unhashable (invalid_json reply) = false
is_unhashable (payload draws p) = is_unhashable_type p.raw_type

-- how the sending of an error event for a frame ends
abbrev pub reply_of : Frame → Result (Unit {0})
reply_of (invalid_json reply) = reply
reply_of (payload draws p) = draws.reply

-- how many frames reach the dispatcher
abbrev pub payloads : List Frame → ℕ
payloads [] = 0
payloads (invalid_json reply ∷ frames) = payloads frames
payloads (payload draws p ∷ frames) = suc (payloads frames)

module _ (backend : Backend) (codec : CursorCodec) (settings : Settings)
    (is_stale : Socket → Bool) where
  abbrev There : Type 0
  There = Server backend codec settings is_stale
