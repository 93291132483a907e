-- ===== src/Services/History/WalkBack.antt =====
-- A client that loads older pages, each in front of what it has (`MessageService.list`).
use mathlib.Core.List.{map-append, reverse-append}
use chatterbox.Prelude.{
  ℕ, zero, suc, ◌<◌, true, false, Option, none, some, List, [], ◌++◌, map, reverse, ◌≡◌, ap, ◌∙◌,
  sym, inl, inr, arith, take, drop, length, get_last?, Bool-cases, ltb, ltb→lt,
}
use chatterbox.Prelude.Prefixes.{
  take-take-suc, ltb-length-take-suc, take_all, take-append-drop, length-drop, get_last?-take,
  All-drop, All-last,
}
use chatterbox.Errors.{Result, ok, raised}
use chatterbox.Models.{Uuid, Text, Message, Db}
use chatterbox.Session.{request}
use chatterbox.Repositories.Messages.{Cursor, position}
use chatterbox.Services.History.{
  CursorCodec, MessageResponse, MessagePage, to_response, encode_last, page_backward, list,
}
use chatterbox.Services.History.Ordered.{HasUniqueIds}
use chatterbox.Services.History.Pages.{
  history_before, history_before_last, MayRead, encode_option, list_before_page, IsWritable,
  is_writable,
}

module _ (codec : CursorCodec) (conversation_id user_id : Uuid) (limit : ℕ) (db : Db) where
  abbrev precede : Result MessagePage → (Text → List MessageResponse) → List MessageResponse
  precede (raised e) next = []
  precede (ok page) next = elim page.next_cursor [
    | none ↦ page.items
    | some t ↦ next t ++ page.items
  ]

  -- what a client collects that asks for the page before a cursor, and so on while there is a next one
  pub walk_before : ℕ → Option Text → List MessageResponse
  walk_before zero t = []
  walk_before (suc fuel) t =
      precede (request (list codec conversation_id user_id limit t none) db).0
        (λ next. walk_before fuel (some next))

  -- the messages before a cursor, oldest first, as a client sees them
  abbrev pub seen : List Message → List MessageResponse
  seen newest_first = map (to_response codec db) (reverse newest_first)

  last_page :
      (rest : List Message) (next : Text → List MessageResponse)
      → ltb limit (length rest) ≡ false
      → precede (ok (page_backward codec limit db (take (suc limit) rest))) next ≡ seen rest
  unfolding page_backward
  last_page rest next h =
      rw (ltb-length-take-suc limit rest, h, take-take-suc limit rest)
        (ap seen (take_all limit rest (ground arith)))

  middle_page :
      (rest : List Message) (next : Text → List MessageResponse) (m : Message)
      → ltb limit (length rest) ≡ true
      → get_last? (take limit rest) ≡ some m
      → precede (ok (page_backward codec limit db (take (suc limit) rest))) next
        ≡ next (codec.encode (position m)) ++ seen (take limit rest)
  unfolding page_backward
  middle_page rest next m h e =
      rw (ltb-length-take-suc limit rest, h, take-take-suc limit rest, e, encode_last)

  seen-append : (xs ys : List Message) → seen ys ++ seen xs ≡ seen (xs ++ ys)
  seen-append xs ys =
      sym (map-append (to_response codec db) (reverse ys) (reverse xs))
      ∙ ap (map (to_response codec db)) (sym (reverse-append xs ys))

  -- With `limit` at least 1, unique message ids and more rounds than there are messages to see, and if
  -- the cursor and the places of these messages can be written, a member who loads the older pages one
  -- after the other, from a cursor or from the newest message, collects exactly the visible messages
  -- before that place, each once, oldest first.
  pub walk_before_complete :
      (fuel : ℕ) (c : Option Cursor)
      → MayRead conversation_id user_id db
      → HasUniqueIds db.messages
      → is_writable codec c ≡ true
      → IsWritable codec (history_before conversation_id c db)
      → 0 < limit
      → length (history_before conversation_id c db) < fuel
      → walk_before fuel (encode_option codec c) ≡ seen (history_before conversation_id c db)
  unfolding walk_before
  walk_before_complete zero c may u w ws pos h = absurd (omega arith)
  walk_before_complete (suc fuel) c may u w ws pos h =
      let rest : List Message = history_before conversation_id c db in
      let next : Text → List MessageResponse = λ t. walk_before fuel (some t) in
      ap (λ (r : Result MessagePage × Db). precede r.0 next)
        (list_before_page codec conversation_id user_id limit db c w may)
      ∙ (elim (Bool-cases (ltb limit (length rest))) [
        | inl more ↦
            (let (m, e) = get_last?-take limit rest pos (ground arith) in
              let older : history_before conversation_id (some (position m)) db ≡ drop limit rest =
                history_before_last conversation_id c limit db m u e in
              middle_page rest next m more e
              ∙ ap (λ (l : List MessageResponse). l ++ seen (take limit rest))
                  (walk_before_complete fuel (some (position m)) may u
                      (All-last (λ m. codec.writable (position m) ≡ true) limit rest m ws e)
                      (rw older (All-drop (λ m. codec.writable (position m) ≡ true) limit rest ws))
                      pos
                      (rw older
                        (omega (arith, length-drop limit rest, ltb→lt limit (length rest) more, h)))
                    ∙ ap seen older)
              ∙ seen-append (take limit rest) (drop limit rest)
              ∙ ap seen (take-append-drop limit rest))
        | inr done ↦ last_page rest next done
      ])
