-- ===== src/Services/History/Walk.antt =====
-- A client that follows `next_cursor` from page to page, forward (`MessageService.list`).
use mathlib.Core.List.{map-append}
use chatterbox.Prelude.{
  ℕ, zero, suc, ◌<◌, true, false, none, some, List, [], ◌++◌, map, ◌≡◌, ap, ◌∙◌, sym, inl, inr,
  arith, take, drop, length, get_last?, Bool-cases, ltb, ltb→lt,
}
use chatterbox.Prelude.Prefixes.{
  take-take-suc, ltb-length-take-suc, take_all, take-append-drop, length-drop, get_last?-take,
  All-drop, All-last,
}
use chatterbox.Errors.{Result, ok, raised}
use chatterbox.Models.{Uuid, Text, Message, Db}
use chatterbox.Session.{request}
use chatterbox.Repositories.Messages.{Cursor, position}
use chatterbox.Services.History.{
  CursorCodec, MessageResponse, MessagePage, to_response, encode_last, page_forward, list,
}
use chatterbox.Services.History.Ordered.{HasUniqueIds}
use chatterbox.Services.History.Pages.{
  history_after, history_after_last, MayRead, list_after_page, IsWritable,
}

module _ (codec : CursorCodec) (conversation_id user_id : Uuid) (limit : ℕ) (db : Db) where
  abbrev follow : Result MessagePage → (Text → List MessageResponse) → List MessageResponse
  follow (raised e) next = []
  follow (ok page) next = elim page.next_cursor [
    | none ↦ page.items
    | some t ↦ page.items ++ next t
  ]

  -- what a client collects that asks for the page after a cursor, and so on while there is a next one
  pub walk_after : ℕ → Text → List MessageResponse
  walk_after zero t = []
  walk_after (suc fuel) t =
      follow (request (list codec conversation_id user_id limit none (some t)) db).0
        (walk_after fuel)

  last_page :
      (rest : List Message) (next : Text → List MessageResponse)
      → ltb limit (length rest) ≡ false
      → follow (ok (page_forward codec limit db (take (suc limit) rest))) next
        ≡ map (to_response codec db) rest
  unfolding page_forward
  last_page rest next h =
      rw (ltb-length-take-suc limit rest, h, take-take-suc limit rest)
        (ap (map (to_response codec db)) (take_all limit rest (ground arith)))

  middle_page :
      (rest : List Message) (next : Text → List MessageResponse) (m : Message)
      → ltb limit (length rest) ≡ true
      → get_last? (take limit rest) ≡ some m
      → follow (ok (page_forward codec limit db (take (suc limit) rest))) next
        ≡ map (to_response codec db) (take limit rest) ++ next (codec.encode (position m))
  unfolding page_forward
  middle_page rest next m h e =
      rw (ltb-length-take-suc limit rest, h, take-take-suc limit rest, e, encode_last)

  -- With `limit` at least 1, unique message ids and more rounds than there are messages to see, and if
  -- the first cursor and the places of these messages can be written, a member who follows the
  -- cursors collects exactly the visible messages after the first cursor, each once, oldest first.
  pub walk_after_complete :
      (fuel : ℕ) (c : Cursor)
      → MayRead conversation_id user_id db
      → HasUniqueIds db.messages
      → codec.writable c ≡ true
      → IsWritable codec (history_after conversation_id c db)
      → 0 < limit
      → length (history_after conversation_id c db) < fuel
      → walk_after fuel (codec.encode c)
        ≡ map (to_response codec db) (history_after conversation_id c db)
  unfolding walk_after
  walk_after_complete zero c may u w ws pos h = absurd (omega arith)
  walk_after_complete (suc fuel) c may u w ws pos h =
      let rest : List Message = history_after conversation_id c db in
      ap (λ (r : Result MessagePage × Db). follow r.0 (walk_after fuel))
        (list_after_page codec conversation_id user_id limit db c w may)
      ∙ (elim (Bool-cases (ltb limit (length rest))) [
        | inl more ↦
            (let (m, e) = get_last?-take limit rest pos (ground arith) in
              let after : history_after conversation_id (position m) db ≡ drop limit rest =
                history_after_last conversation_id c limit db m u e in
              middle_page rest (walk_after fuel) m more e
              ∙ ap (λ (l : List MessageResponse). map (to_response codec db) (take limit rest) ++ l)
                  (walk_after_complete fuel (position m) may u
                      (All-last (λ m. codec.writable (position m) ≡ true) limit rest m ws e)
                      (rw after (All-drop (λ m. codec.writable (position m) ≡ true) limit rest ws))
                      pos
                      (rw after
                        (omega (arith, length-drop limit rest, ltb→lt limit (length rest) more, h)))
                    ∙ ap (map (to_response codec db)) after)
              ∙ sym (map-append (to_response codec db) (take limit rest) (drop limit rest))
              ∙ ap (map (to_response codec db)) (take-append-drop limit rest))
        | inr done ↦ last_page rest (walk_after fuel) done
      ])
