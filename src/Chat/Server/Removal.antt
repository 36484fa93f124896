-- ===== src/Chat/Server/Removal.antt =====
-- CServer::ClearSession: what it removes, and what it leaves.
use minichat.Base.{
  ◌≡◌, refl, ap, false, none, Bytes, ◌==◌, bytes_eq, ◌&&◌, if◌then◌else◌, is_empty, Bool-cases, inl,
  inr,
}
use minichat.Base.Int.{ℤ, int_eq, is_positive}
use minichat.Base.Assoc.{erase}
use minichat.UserMgr.{get_sessions, rmv_user_session}
use minichat.UserMgr.Laws.{view, view-rmv_user_session}
use minichat.Chat.Json.{Json}
use minichat.Chat.World.{Env, World}
use minichat.Chat.Redis.Answers.{IsUp}
use minichat.Chat.Trace.{Returns, followed_lem, Adds, Framed, Framed-refl}
use minichat.Chat.Online.{user_ip_key}
use minichat.Chat.Online.Registry.{OnKey, remove_online_server-Framed}
use minichat.Chat.Server.{user_of, leave, erase_session, clear_session}

-- The session with the id `id` is gone from the acceptor and from its user's entry; every other
-- entry stands. Redis is called only when the user has no session left, and only about that user.
pub record Cleared (id : Bytes) (w w' : World) : Type 0 where
  pub sessions_left : w'.sessions ≡ erase id w.sessions
  pub users_left :
      (uid : ℤ) (other : Bytes)
      → view w'.users uid other ≡ (
          if is_positive (user_of w id) && (user_of w id == uid && id == other)
          then none
          else view w.users uid other)
  pub calls_made :
      if is_positive (user_of w id) && is_empty (get_sessions w'.users (user_of w id))
      then Adds (OnKey (user_ip_key (user_of w id))) w.calls w'.calls
      else w'.calls ≡ w.calls
  pub ids_kept : w'.user_ids ≡ w.user_ids
  pub uuids_kept : w'.uuids ≡ w.uuids

module _ (j : Json) (env : Env) (up : IsUp env) (id : Bytes) (w : World) where
  abbrev user : ℤ
  user = user_of w id

  abbrev removed : World
  removed = record w { users = rmv_user_session w.users user id }

  abbrev Gone : World → Type 0
  Gone v =
      Framed (OnKey (user_ip_key user)) removed v
      × (is_empty (get_sessions removed.users user) ≡ false → v.calls ≡ w.calls)

  leave-Gone : Returns (leave j env user) removed (λ _. Gone)
  leave-Gone = elim (Bool-cases (is_empty (get_sessions removed.users user))) [
    | inl e ↦
        let (a, v, e', f) = remove_online_server-Framed j env up user removed in
        (a, v, rw e e', (f, λ e''. cc (e, e'')))
    | inr e ↦ (tt, removed, rw e refl, (Framed-refl removed, λ _. refl))
  ]

  -- ClearSession, while Redis answers: the session with this id is gone from the acceptor and from the
  -- entry of the user that it carries, and every other entry of the user manager stands. Redis is
  -- called only when that user has no session left, and only on that user's key.
  pub clear_session-Cleared : Returns (clear_session j env id) w (λ _. Cleared id w)
  unfolding clear_session
  clear_session-Cleared = elim (Bool-cases (is_positive user)) [
    | inl e ↦
        let (a, v, e', (f, h)) = leave-Gone in
        (
          tt,
          record v { sessions = erase id v.sessions },
          rw e (followed_lem (λ _. erase_session j env id) e'),
          record {
            sessions_left = ap (erase id) f.sessions_kept;
            users_left =
                λ uid other. rw (e, f.users_kept) (view-rmv_user_session w.users user uid id other);
            calls_made = rw (e, f.users_kept) (calls v f h);
            ids_kept = f.ids_kept;
            uuids_kept = f.uuids_kept;
          },
        )
    | inr e ↦ (
      tt,
      record w { sessions = erase id w.sessions },
      rw e refl,
      record {
        sessions_left = refl;
        users_left = λ uid other. rw e refl;
        calls_made = rw e refl;
        ids_kept = refl;
        uuids_kept = refl;
      },
    )
  ]
    where
      calls :
          (v : World)
          → Framed (OnKey (user_ip_key user)) removed v
          → (is_empty (get_sessions removed.users user) ≡ false → v.calls ≡ w.calls)
          → if is_empty (get_sessions removed.users user)
            then Adds (OnKey (user_ip_key user)) w.calls v.calls
            else v.calls ≡ w.calls
      calls v f h = elim (Bool-cases (is_empty (get_sessions removed.users user))) [
        | inl e ↦ rw e f.adds
        | inr e ↦ rw e (h e)
      ]
