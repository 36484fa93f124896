-- ===== src/Chat/Service/Pushed.antt =====
-- A peer's request is pushed to every device of the user, and the reply tells whether there was one.
use minichat.Base.{◌≡◌, refl, ℕ, some, List, [], ◌∷◌, Bytes, is_empty, if◌then◌else◌}
use minichat.Const.ErrorCodes
use minichat.Const.MsgIds
use minichat.UserMgr.{SessionPtr, get_sessions}
use minichat.Chat.Json.{Json}
use minichat.Chat.World.{TextChatMsgReq, AddFriendReq, Env, World, send, pure, each}
use minichat.Chat.Trace.{followed_lem}
use minichat.Chat.Text.{send_each}
use minichat.Chat.Service.{
  build_text_notify_value, add_friend_value, push_all, serve_text_chat_msg, serve_add_friend,
}

-- The world after pushing a text to some sessions, in order.
abbrev pub pushed_to : List SessionPtr → Bytes → ℕ → World → World
pushed_to [] text msg_id w = w
pushed_to (p ∷ ps) text msg_id w =
    pushed_to ps text msg_id (record w { calls = send p text msg_id ∷ w.calls })

module _ (j : Json) (env : Env) where
  send_each-pushed_to :
      (text : Bytes) (msg_id : ℕ) (ps : List SessionPtr) (w : World)
      → send_each j env text msg_id ps w ≡ some (tt, pushed_to ps text msg_id w)
  unfolding each
  send_each-pushed_to text msg_id [] w = refl
  send_each-pushed_to text msg_id (p ∷ ps) w = send_each-pushed_to text msg_id ps _

  push_all-pushed_to :
      (text : Bytes) (msg_id : ℕ) (none_error : ℕ) (ps : List SessionPtr) (w : World)
      → (if is_empty ps then pure none_error else push_all j env text msg_id ps ErrorCodes.success)
          w
        ≡ some (if is_empty ps then none_error else ErrorCodes.success, pushed_to ps text msg_id w)
  push_all-pushed_to text msg_id none_error [] w = refl
  push_all-pushed_to text msg_id none_error (p ∷ ps) w =
      followed_lem (λ _. pure ErrorCodes.success) (send_each-pushed_to text msg_id (p ∷ ps) w)

  -- The handler of NotifyTextChatMsg pushes the message once to each session of the user, in order,
  -- does nothing else, and replies success exactly when there was one.
  pub serve_text_chat_msg-pushed_to :
      (request : TextChatMsgReq) (w : World)
      → serve_text_chat_msg j env request w
        ≡ some (
          if is_empty (get_sessions w.users request.touid)
              then ErrorCodes.uid_invalid
              else ErrorCodes.success,
          pushed_to
              (get_sessions w.users request.touid)
              (j.styled (build_text_notify_value j request))
              MsgIds.notify_text_chat_msg_req
              w,
        )
  unfolding serve_text_chat_msg
  serve_text_chat_msg-pushed_to request w =
      push_all-pushed_to (j.styled (build_text_notify_value j request))
        MsgIds.notify_text_chat_msg_req ErrorCodes.uid_invalid (get_sessions w.users request.touid)
        w

  -- The handler of NotifyAddFriend pushes the application to each session of the user, in order, and
  -- replies success whether there was one or not.
  pub serve_add_friend-pushed_to :
      (request : AddFriendReq) (w : World)
      → serve_add_friend j env request w
        ≡ some (
          if is_empty (get_sessions w.users request.touid)
              then ErrorCodes.success
              else ErrorCodes.success,
          pushed_to
              (get_sessions w.users request.touid)
              (j.styled (add_friend_value j request))
              MsgIds.notify_add_friend_req
              w,
        )
  unfolding serve_add_friend
  serve_add_friend-pushed_to request w =
      push_all-pushed_to (j.styled (add_friend_value j request)) MsgIds.notify_add_friend_req
        ErrorCodes.success (get_sessions w.users request.touid) w
