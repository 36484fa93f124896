-- ===== src/Chat/Server.antt =====
-- ChatSever/Cserver.cpp: the sessions of the acceptor, and their removal.
pub mod Removal
use minichat.Base.{
  Bool, true, false, none, some, Bytes, ◌==◌, nat_eq, bytes_eq, is_empty, if◌then◌else◌,
}
use minichat.Base.Int.{ℤ, pos, is_positive}
use minichat.Base.Assoc.{lookup, insert, erase}
use minichat.UserMgr.{SessionPtr, get_sessions, rmv_user_session}
use minichat.Chat.Json.{Json}
use minichat.Chat.World.{Env, World, M, ◌>>◌, pure}
use minichat.Chat.Online.{remove_online_server}

-- `_sessions.insert` keeps an entry that is there.
unfoldable pub handle_accept : World → SessionPtr → Bool → World
handle_accept w new_session true = w
handle_accept w new_session false = elim (lookup (w.uuids new_session) w.sessions) [
  | none ↦ record w { sessions = insert (w.uuids new_session) new_session w.sessions }
  | some old ↦ w
]

-- The user of the session, or 0 where there is no session under the id, or a null one.
unfoldable pub user_of : World → Bytes → ℤ
user_of w session_id = elim (lookup session_id w.sessions) [
  | none ↦ pos 0
  | some p ↦ if p == 0 then pos 0 else w.user_ids p
]

module _ (j : Json) (env : Env) where
  -- RemoveOnlineServer, once GetSessions is empty.
  abbrev pub leave : ℤ → M (Unit {0})
  leave uid w =
      if is_empty (get_sessions w.users uid) then remove_online_server j env uid w else pure tt w

  abbrev pub forget : ℤ → Bytes → M (Unit {0})
  forget uid session_id w =
      if is_positive uid
      then leave uid (record w { users = rmv_user_session w.users uid session_id })
      else pure tt w

  abbrev pub erase_session : Bytes → M (Unit {0})
  erase_session session_id w = pure tt (record w { sessions = erase session_id w.sessions })

  unfoldable pub clear_session : Bytes → M (Unit {0})
  clear_session session_id w =
      (do forget (user_of w session_id) session_id; erase_session session_id) w
