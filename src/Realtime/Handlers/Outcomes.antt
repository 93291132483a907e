-- ===== src/Realtime/Handlers/Outcomes.antt =====
-- How an event ends: what is counted, and what is stored.
use chatterbox.Prelude.{
  ℕ, Bool, true, false, none, some, List, [], ◌∷◌, ◌++◌, ◌≡◌, refl, ap, ◌∙◌, ◌↔◌, ◌⊎◌, inl, inr,
  arith, Option-cases,
}
use chatterbox.Config.{Settings}
use chatterbox.Errors.{Exception, app_error, failure, Result, ok, raised, Result-cases}
use chatterbox.Models.{Uuid, Text, Message, Db}
use chatterbox.Session.{Session, Exec, request}
use chatterbox.Services.Conversation.{get_authorized}
use chatterbox.Services.Message.{store_message}
use chatterbox.Services.Message.Binding.{store_message_raises}
use chatterbox.Services.Receipt
use chatterbox.Services.Receipt.{ReceiptEventData}
use chatterbox.Services.History.{CursorCodec, MessageResponse}
use chatterbox.Realtime.Events.{
  Event, ClientEvent, MessageSendEvent, MessageReadRequest, message_read,
}
use chatterbox.Realtime.Manager.{Backend, Socket, allow_action}
use chatterbox.Realtime.Handlers.{
  Outcome, accepted, invalid, rejected, errored, RawType, Payload, Draws, Server, event_type,
  Handler, in_session, send_each, announce, create_message, read_messages, typing_members,
  announce_read, announce_typing, handle_message_send, handle_message_read, handle_typing, limited,
  handle, settle, or_validated, process, dispatch_event,
}

-- the counter's label for how the handling ended
abbrev pub label_of : {A : Type 0} → Result A → Outcome
label_of (ok a) = accepted
label_of (raised (app_error x)) = rejected
label_of (raised _) = errored

module _ (backend : Backend) (codec : CursorCodec) (settings : Settings)
    (is_stale : Socket → Bool) where
  abbrev Srv : Type 0
  Srv = Server backend codec settings is_stale

  create_raises :
      (draws : Draws) (e : MessageSendEvent) (u : Uuid) (db db' : Db) (x : Exception)
      → request (create_message backend codec settings is_stale draws e u) db ≡ (raised x, db')
      → db' ≡ db
  create_raises draws e u db db' x h =
      let begun : Session = record { committed = db; working = db } in
      let store : Exec Message =
        store_message settings.attachment_max_per_message draws.receipt_id draws.message_id
          draws.now e.conversation_id u e.content e.attachment_ids in
      elim (Result-cases (store begun).0) [
        | inl (m, stored) ↦ ground (arith, stored)
        | inr (y, refused) ↦ ground (
          arith,
          refused,
          store_message_raises settings.attachment_max_per_message draws.receipt_id draws.message_id
              draws.now e.conversation_id u e.content e.attachment_ids db (store begun).1.committed
              y,
        )
      ]

  counted-send_each :
      (ids : List Uuid) (event : ReceiptEventData → Event) (rs : List ReceiptEventData) (s : Srv)
      → ((send_each backend codec settings is_stale ids event rs s).counted ≡ s.counted)
        × ((send_each backend codec settings is_stale ids event rs s).db ≡ s.db)
  unfolding send_each
  counted-send_each ids event [] s = (refl, refl)
  counted-send_each ids event (r ∷ rs) s = counted-send_each ids event rs _

  -- Handling counts nothing, and returns or leaves the database as it was.
  abbrev Keeps : Srv → Result (Unit {0}) × Srv → Type 0
  Keeps s p = (p.1.counted ≡ s.counted) × ((p.0 ≡ ok tt) ⊎ (p.1.db ≡ s.db))

  in_session-Keeps :
      {A : Type 0} (m : Exec A) (k : A → Handler backend codec settings is_stale) (s : Srv)
      → ((x : Exception) (db : Db) → request m s.db ≡ (raised x, db) → db ≡ s.db)
      → ((a : A) (t : Srv) → ((k a t).0 ≡ ok tt) × ((k a t).1.counted ≡ t.counted))
      → Keeps s (in_session backend codec settings is_stale m k s)
  in_session-Keeps {A} m k s raises returns = elim (Result-cases (request m s.db).0) [
    | inl (a, e) ↦
        (let back = returns a (record s { db = (request m s.db).1 }) in ground (arith, e, back))
    | inr (x, e) ↦ ground (arith, e, raises x (request m s.db).1)
  ]

  announce_keeps :
      (draws : Draws) (e : MessageSendEvent) (u : Uuid) (c : Uuid × MessageResponse × List Uuid)
      (s : Srv)
      → ((announce backend codec settings is_stale draws e u c s).0 ≡ ok tt)
        × ((announce backend codec settings is_stale draws e u c s).1.counted ≡ s.counted)
  unfolding announce Receipt.mark_delivered
  announce_keeps draws e u c s = grind (arith, counted-send_each)

  message_send-Keeps :
      (draws : Draws) (e : MessageSendEvent) (u : Uuid) (s : Srv)
      → Keeps s (handle_message_send backend codec settings is_stale draws e u s)
  unfolding handle_message_send
  message_send-Keeps draws e u s =
      in_session-Keeps (create_message backend codec settings is_stale draws e u)
        (announce backend codec settings is_stale draws e u) s
        (λ x db h. create_raises draws e u s.db db x h) (announce_keeps draws e u)

  read_raises :
      (draws : Draws) (e : MessageReadRequest) (u : Uuid) (db db' : Db) (x : Exception)
      → request (read_messages backend codec settings is_stale draws e u) db ≡ (raised x, db')
      → db' ≡ db
  unfolding Receipt.mark_read get_authorized
  read_raises draws e u db db' x h = ground arith

  message_read-Keeps :
      (draws : Draws) (e : MessageReadRequest) (u : Uuid) (s : Srv)
      → Keeps s (handle_message_read backend codec settings is_stale draws e u s)
  unfolding handle_message_read announce_read
  message_read-Keeps draws e u s =
      in_session-Keeps (read_messages backend codec settings is_stale draws e u)
        (announce_read backend codec settings is_stale e) s
        (λ x db h. read_raises draws e u s.db db x h)
        (λ found t. (refl, (counted-send_each found.1 (message_read e.request_id) found.0 t).0))

  typing-Keeps :
      (draws : Draws) (started : Bool) (c u : Uuid) (s : Srv)
      → Keeps s (handle_typing backend codec settings is_stale draws started c u s)
  unfolding handle_typing announce_typing
  typing-Keeps draws started c u s =
      in_session-Keeps (typing_members backend codec settings is_stale c u)
        (announce_typing backend codec settings is_stale draws started c u) s
        (λ x db h. ground arith) (λ ids t. (refl, refl))

  limited-Keeps :
      (u : Uuid) (action : Text) (n : ℕ) (h : Handler backend codec settings is_stale) (s : Srv)
      → ((t : Srv) → Keeps t (h t))
      → Keeps s (limited backend codec settings is_stale u action n h s)
  unfolding limited
  limited-Keeps u action n h s keeps =
      let (allowed, m) =
        allow_action backend u action n settings.realtime_rate_limit_window_seconds s.manager in
      ground (arith, keeps (record s { manager = m }))

  handle-Keeps :
      (draws : Draws) (e : ClientEvent) (u : Uuid) (s : Srv)
      → Keeps s (handle backend codec settings is_stale draws e u s)
  unfolding handle
  handle-Keeps draws (ClientEvent.send e) u s =
      limited-Keeps u _ _ (handle_message_send backend codec settings is_stale draws e u) s
        (message_send-Keeps draws e u)
  handle-Keeps draws (ClientEvent.read e) u s =
      limited-Keeps u _ _ (handle_message_read backend codec settings is_stale draws e u) s
        (message_read-Keeps draws e u)
  handle-Keeps draws (ClientEvent.typing_start c) u s =
      limited-Keeps u _ _ (handle_typing backend codec settings is_stale draws true c u) s
        (typing-Keeps draws true c u)
  handle-Keeps draws (ClientEvent.typing_stop c) u s =
      limited-Keeps u _ _ (handle_typing backend codec settings is_stale draws false c u) s
        (typing-Keeps draws false c u)

  -- how the handling of a payload ends, and so what its label is counted with
  abbrev pub outcome : Draws → Payload → Uuid → Srv → Outcome
  outcome draws p u s = elim (or_validated backend codec settings is_stale p.fields) [
    | none ↦ invalid
    | some e ↦ label_of (handle backend codec settings is_stale draws e u s).0
  ]

  -- what the dispatcher returns or raises, by how the handling ended
  abbrev pub ended : Draws → Outcome → Result (Unit {0})
  ended draws accepted = ok tt
  ended draws _ = draws.reply

  settle_counts :
      (draws : Draws) (p : Payload) (label : Text) (u : Uuid) (q : Result (Unit {0}) × Srv)
      → let (r, t) = settle backend codec settings is_stale draws p label u q in
        (r ≡ ended draws (label_of q.0))
        × (t.counted ≡ q.1.counted ++ (label, label_of q.0) ∷ [])
        × (t.db ≡ q.1.db)
  unfolding settle
  settle_counts draws p label u q = ground arith

  process_counts :
      (draws : Draws) (p : Payload) (label : Text) (u : Uuid) (s : Srv)
      → let (r, t) = process backend codec settings is_stale draws p label u s in
        (r ≡ ended draws (outcome draws p u s))
        × (t.counted ≡ s.counted ++ (label, outcome draws p u s) ∷ [])
        × ((outcome draws p u s ≡ accepted) ⊎ (t.db ≡ s.db))
  unfolding process settle
  process_counts draws p label u s =
      elim (Option-cases (or_validated backend codec settings is_stale p.fields)) [
        | inl nothing ↦ ground (arith, nothing)
        | inr (e, valid) ↦
            (let q = handle backend codec settings is_stale draws e u s in
              let (returns, counts, stores) = settle_counts draws p label u q in
              let (counted, kept) = handle-Keeps draws e u s in
              rw (valid, process, outcome)
                (
                  returns,
                  counts ∙ ap (λ xs. xs ++ (label, label_of q.0) ∷ []) counted,
                  elim kept [ inl fine ↦ inl (ap label_of fine) | inr same ↦ inr (stores ∙ same) ],
                ))
      ]

  -- A payload whose type can be hashed is counted exactly once, with the outcome of its handling; the
  -- dispatcher then raises only what the sending of an error event raises; unless the outcome is that
  -- the payload was accepted, the database is as it was.
  pub dispatch_counts_once :
      (draws : Draws) (p : Payload) (u : Uuid) (s : Srv) (label : Text)
      → event_type p.raw_type ≡ ok label
      → let (r, t) = dispatch_event backend codec settings is_stale draws p u s in
        (r ≡ ended draws (outcome draws p u s))
        × (t.counted ≡ s.counted ++ (label, outcome draws p u s) ∷ [])
        × ((outcome draws p u s ≡ accepted) ⊎ (t.db ≡ s.db))
  unfolding dispatch_event
  dispatch_counts_once draws p u s label typed =
      ground (arith, typed, process_counts draws p label u s)

  -- Where the sending of error events does not raise, only a payload whose `type` cannot be hashed makes
  -- the dispatcher raise, and every such payload does; it is neither counted nor answered, and changes nothing.
  pub dispatch_raises_iff_unhashable :
      (draws : Draws) (p : Payload) (u : Uuid) (s : Srv)
      → draws.reply ≡ ok tt
      → (dispatch_event backend codec settings is_stale draws p u s ≡ (raised failure, s))
        ↔ (p.raw_type ≡ RawType.unhashable)
  unfolding dispatch_event event_type process settle
  dispatch_raises_iff_unhashable draws p u s fine =
      (λ h. ground (arith, fine), λ h. ground (arith, h))
