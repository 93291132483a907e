-- ===== src/Realtime/Endpoint.antt =====
-- backend/app/api/websocket.py: one connection from its acceptance to its end, and
-- `mark_user_offline` of backend/app/services/presence_service.py.
pub mod Lifecycle
pub mod Frames
use chatterbox.Prelude.{
  ◌++◌, ℕ, ◌+◌, ◌-◌, Bool, true, false, Option, none, some, List, [], ◌∷◌, map, if◌then◌else◌,
}
use chatterbox.Config.{Settings}
use chatterbox.Errors.{Exception, Result, ok, raised}
use chatterbox.Models.{Uuid, Time, Db}
use chatterbox.Session.{Exec, pure, gets, request, ◌>>=◌}
use chatterbox.Repositories.Conversations
use chatterbox.Services.History.{CursorCodec}
use chatterbox.Services.Presence.{record_last_seen}
use chatterbox.Services.Receipt
use chatterbox.Services.Receipt.{ReceiptEventData}
use chatterbox.Realtime.Events.{
  Event, connection_ready, message_delivered, presence_online, presence_offline, error, ErrorCode,
}
use chatterbox.Realtime.Manager
use chatterbox.Realtime.Manager.{Backend, Socket, send_to_users, send_to_user, online_user_ids}
use chatterbox.Realtime.Handlers.{Payload, Draws, Server, Handler, in_session, send, dispatch_event}

-- What `receive_text` and `json.loads` give: a payload, or a text that is not JSON. After the last
-- frame the client has gone, and `receive_text` raises `WebSocketDisconnect`. A text that is not JSON
-- comes with how the sending of its error event ends.
pub data Frame : Type 0 where
  invalid_json : Result (Unit {0}) → Frame
  payload : Draws → Payload → Frame

-- How the body of the `try` ends: by an exception that the endpoint expects, or by another one.
pub data Ending : Type 0 where
  closed : Ending
  escaped : Exception → Ending

module _ (backend : Backend) (codec : CursorCodec) (settings : Settings)
    (is_stale : Socket → Bool) where
  abbrev Here : Type 0
  Here = Server backend codec settings is_stale

  -- An instance with its gauge `WEBSOCKET_CONNECTIONS`.
  pub record Live : Type 0 where
    pub server : Server backend codec settings is_stale
    pub connections : ℕ

  -- the event of `mark_user_offline`, to the peers but not to the user
  abbrev pub announce_offline : Time → Uuid → List Uuid → Handler backend codec settings is_stale
  announce_offline now user_id peer_ids s = (
    ok tt,
    record s {
      manager =
          send_to_users backend is_stale peer_ids (presence_offline user_id now) (some user_id)
            s.manager;
    },
  )

  -- `mark_user_offline`
  pub mark_user_offline : Time → Uuid → Handler backend codec settings is_stale
  mark_user_offline now user_id =
      in_session backend codec settings is_stale (record_last_seen now user_id)
        (announce_offline now user_id)

  -- the first session: the peers, and each pending receipt with the members of its conversation
  abbrev pub pending : Time → Uuid → Exec (List Uuid × List (ReceiptEventData × List Uuid))
  pending now user_id = do
    peer_ids ← gets (Conversations.peer_ids user_id)
    receipts ← Receipt.mark_pending_delivered now user_id
    with_members ←
        gets (λ db. map (λ r. (r, Conversations.member_ids r.conversation_id db)) receipts)
    pure (peer_ids, with_members)

  -- the loop over the pending receipts
  pub deliver_pending : List (ReceiptEventData × List Uuid) → Here → Here
  deliver_pending [] s = s
  deliver_pending ((r, member_ids) ∷ rest) s =
      deliver_pending rest (send backend codec settings is_stale member_ids (message_delivered r) s)

  -- What follows the first session: whether `websocket.send_json` took the greeting, which raises
  -- `RuntimeError` on a stale socket, and the state.
  pub greet :
      Bool → Uuid → Socket → List Uuid × List (ReceiptEventData × List Uuid) → Here → Bool × Here
  unfolding deliver_pending
  greet became_online user_id w (peer_ids, receipts) s =
      let (online, m) = online_user_ids backend peer_ids s.manager in
      let ready = record m { sent = m.sent ++ (w, connection_ready user_id online) ∷ [] } in
      let told =
        if became_online
        then send_to_users backend is_stale peer_ids (presence_online user_id) (some user_id) ready
        else ready in
      if is_stale w
      then (false, record s { manager = m })
      else (true, deliver_pending receipts (record s { manager = told }))

  -- a dispatch that returned goes on; one that raised ends the body
  abbrev pub go_on : Result (Unit {0}) × Here → (Here → Ending × Here) → Ending × Here
  go_on (ok _, s) next = next s
  go_on (raised e, s) next = (escaped e, s)

  -- the loop over the frames
  pub serve : Uuid → List Frame → Here → Ending × Here
  serve user_id [] s = (closed, s)
  serve user_id (invalid_json reply ∷ frames) s =
      go_on
        (
          reply,
          send backend codec settings is_stale (user_id ∷ []) (error none ErrorCode.invalid_json) s,
        )
        (λ t. serve user_id frames t)
  serve user_id (payload draws p ∷ frames) s =
      go_on (dispatch_event backend codec settings is_stale draws p user_id s)
        (λ t. serve user_id frames t)

  -- the body of the `try`
  pub body : Bool → Time → Uuid → Socket → List Frame → Here → Ending × Here
  unfolding greet serve
  body became_online now user_id w frames s =
      let (r, db) = request (pending now user_id) s.db in
      let s1 = record s { db = db } in
      elim r [
        | raised e ↦ (escaped e, s1)
        | ok found ↦
            (let (went, s2) = greet became_online user_id w found s1 in
              let served = serve user_id frames s2 in if went then served else (closed, s2))
      ]

  -- the `finally`
  pub finish : Time → Uuid → Socket → Live → Live
  unfolding mark_user_offline
  finish now user_id w live =
      let (became_offline, m) = Manager.disconnect backend user_id w live.server.manager in
      let s = record live.server { manager = m } in
      record {
        server = if became_offline then (mark_user_offline now user_id s).1 else s;
        connections = live.connections - 1;
      }

  -- `websocket_endpoint`, from `opened` to `ended`
  pub endpoint : Time → Time → Uuid → Socket → List Frame → Live → Ending × Live
  unfolding body finish
  endpoint opened ended user_id w frames live =
      let (became_online, m) = Manager.connect backend user_id w live.server.manager in
      let s = record live.server { manager = m } in
      let (ending, s1) = body became_online opened user_id w frames s in
      (ending, finish ended user_id w (record { server = s1; connections = live.connections + 1 }))
