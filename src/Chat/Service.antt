-- ===== src/Chat/Service.antt =====
-- ChatSever/ChatServiceImpl.cpp: what a chat server does for a request of another one.
-- The fields of a reply that copy the request are left out.
pub mod Pushed
pub mod Reached
use minichat.Base.{
  ℕ, Bool, none, some, List, [], ◌∷◌, ◌++◌, Bytes, codes, is_empty, if◌then◌else◌, map,
}
use minichat.Base.Int.{ℤ}
use minichat.Const.ErrorCodes
use minichat.Const.MsgIds
use minichat.UserMgr.{SessionPtr, get_sessions}
use minichat.Chat.Json.{Json, assigned}
use minichat.Chat.World.{
  AddFriendReq, TextChatData, TextChatMsgReq, Env, M, ◌>>=◌, ◌>>◌, pure, ask_users,
}
use minichat.Chat.Users.{error_of, success_fields, user_base_key, get_base_info}
use minichat.Chat.Text.{send_each}
use minichat.Chat.Friends.{auth_value}

module _ (j : Json) where
  open j use {Value, array, string, int, null, styled}

  abbrev text_element : TextChatData → Value
  text_element m =
      assigned j null
        ((codes "content", string m.msgcontent) ∷ (codes "msgid", string m.msgid) ∷ [])

  -- BuildTextNotifyValue
  unfoldable pub build_text_notify_value : TextChatMsgReq → Value
  build_text_notify_value request = success_fields j (
      (codes "fromuid", int request.fromuid)
      ∷ (codes "touid", int request.touid)
      ∷ (codes "text_array", array (map text_element request.textmsgs))
      ∷ [])

  abbrev pub add_friend_value : AddFriendReq → Value
  add_friend_value request = success_fields j (
      (codes "applyuid", int request.applyuid)
      ∷ (codes "name", string request.name)
      ∷ (codes "desc", string request.desc)
      ∷ (codes "icon", string request.icon)
      ∷ (codes "nick", string request.nick)
      ∷ (codes "sex", int request.sex)
      ∷ [])

  module _ (env : Env) where
    abbrev pub push_all : Bytes → ℕ → List SessionPtr → ℕ → M ℕ
    push_all text msg_id sessions error = do send_each j env text msg_id sessions; pure error

    -- The error code of the reply.
    unfoldable pub serve_add_friend : AddFriendReq → M ℕ
    serve_add_friend request = do
      sessions ← ask_users (λ users. get_sessions users request.touid)
      if is_empty sessions
          then pure ErrorCodes.success
          else push_all (styled (add_friend_value request)) MsgIds.notify_add_friend_req sessions
              ErrorCodes.success

    abbrev push_auth : ℤ → ℤ → List SessionPtr → M ℕ
    push_auth fromuid touid sessions = do
      info ← get_base_info j env (user_base_key fromuid) fromuid
      push_all (styled (auth_value j env fromuid touid info)) MsgIds.notify_auth_friend_req sessions
          ErrorCodes.success

    unfoldable pub serve_auth_friend : ℤ → ℤ → M ℕ
    serve_auth_friend fromuid touid = do
      sessions ← ask_users (λ users. get_sessions users touid)
      if is_empty sessions then pure ErrorCodes.success else push_auth fromuid touid sessions

    unfoldable pub serve_text_chat_msg : TextChatMsgReq → M ℕ
    serve_text_chat_msg request = do
      sessions ← ask_users (λ users. get_sessions users request.touid)
      if is_empty sessions
          then pure ErrorCodes.uid_invalid
          else push_all (styled (build_text_notify_value request)) MsgIds.notify_text_chat_msg_req
              sessions ErrorCodes.success
