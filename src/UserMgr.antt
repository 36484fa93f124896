-- ===== src/UserMgr.antt =====
-- ChatSever/UserMgr.cpp: the sessions of each user that is logged in on this server.
-- A `shared_ptr<CSession>` is a number, and 0 is the null pointer.
pub mod Laws
use minichat.Base.{
  ℕ, Bool, true, false, Option, none, some, List, [], ◌∷◌, Bytes, if◌then◌else◌, ◌==◌, is_empty,
  bytes_eq, nat_eq,
}
use minichat.Base.Int.{ℤ, int_eq}
use minichat.Base.Assoc.{Assoc, lookup, insert, erase}

abbrev pub SessionPtr : Type 0
SessionPtr = ℕ

abbrev pub Sessions : Type 0
Sessions = Assoc Bytes SessionPtr

-- _uid_to_sessions
abbrev pub UserMgr : Type 0
UserMgr = Assoc ℤ Sessions

-- The pointer of `begin()`, where there is one.
unfoldable pub first_session : Sessions → SessionPtr
first_session [] = 0
first_session ((id, p) ∷ rest) = p

unfoldable pub get_session : UserMgr → ℤ → SessionPtr
unfolding first_session
get_session m uid = elim (lookup uid m) [ none ↦ 0 | some sessions ↦ first_session sessions ]

-- The loop of GetSessions, which leaves null pointers out.
unfoldable pub collect : Sessions → List SessionPtr
collect [] = []
collect ((id, p) ∷ rest) = let others = collect rest in if p == 0 then others else p ∷ others

unfoldable pub get_sessions : UserMgr → ℤ → List SessionPtr
get_sessions m uid = elim (lookup uid m) [ none ↦ [] | some sessions ↦ collect sessions ]

-- `m[uid]`, which inserts an empty map where there is none.
unfoldable pub sessions_of : UserMgr → ℤ → Sessions
sessions_of m uid = elim (lookup uid m) [ none ↦ [] | some sessions ↦ sessions ]

unfoldable pub set_user_session : UserMgr → ℤ → Bytes → SessionPtr → UserMgr
set_user_session m uid session_id session =
    insert uid (insert session_id session (sessions_of m uid)) m

-- iter->second.erase(session_id), and the user's entry with its last session.
unfoldable pub drop_session : UserMgr → ℤ → Bytes → Sessions → UserMgr
drop_session m uid session_id sessions =
    let left = erase session_id sessions in if is_empty left then erase uid m else insert uid left m

unfoldable pub rmv_user_session : UserMgr → ℤ → Bytes → UserMgr
rmv_user_session m uid session_id = elim (lookup uid m) [
  | none ↦ m
  | some sessions ↦ drop_session m uid session_id sessions
]
