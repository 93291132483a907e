-- ===== src/Services/Presence.antt =====
-- The database part of backend/app/services/presence_service.py, and user_service.py.
use chatterbox.Prelude.{List}
use chatterbox.Errors.{user_not_found}
use chatterbox.Models.{Uuid, Time, User}
use chatterbox.Session.{Exec, pure, gets, or_raise, modify, commit, ◌>>=◌, ◌>>◌}
use chatterbox.Repositories.Users
use chatterbox.Repositories.Conversations

-- `mark_user_offline`, up to the event: the peers to be told
unfoldable pub record_last_seen : Time → Uuid → Exec (List Uuid)
record_last_seen last_seen user_id = do
  modify (Users.set_last_seen user_id last_seen)
  peer_ids ← gets (Conversations.peer_ids user_id)
  commit
  pure peer_ids

-- `UserService.get`
unfoldable pub get_user : Uuid → Exec User
get_user user_id = do found ← gets (Users.get_by_id user_id); or_raise found user_not_found
