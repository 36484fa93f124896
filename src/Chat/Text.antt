-- ===== src/Chat/Text.antt =====
-- ChatSever/LogicSystem.cpp: DealChatTextMsg and DeliverWrappedToMember, and
-- ChatGrpcClient::NotifyTextChatMsg.
pub mod Delivery
pub mod Texts
pub mod Promise
pub mod Outcome
pub mod Handler
use minichat.Base.{
  ℕ, Bool, true, false, Option, none, some, List, [], ◌∷◌, Bytes, codes, ◌==◌, nat_eq, bytes_eq,
  contains, is_empty, not, ◌||◌, if◌then◌else◌,
}
use minichat.Base.Int.{ℤ}
use minichat.Const.ErrorCodes
use minichat.Const.MsgIds
use minichat.Persist.{TextItem, make_session_id}
use minichat.UserMgr.{SessionPtr, get_sessions}
use minichat.Chat.Json.{Json, assigned, int_field, string_field}
use minichat.Chat.Redis
use minichat.Chat.World.{
  Env, TextChatData, TextChatMsgReq, grpc_text_msg, send, persist, M, ◌>>=◌, ◌>>◌, pure, or_throw,
  call, ask, ask_users, ignore, each, each_flag,
}
use minichat.Chat.Online.{
  get_online_servers, remove_online_server, save_offline_text_msg, offline_msg_key,
}
use minichat.Chat.Users.{error_of}

module _ (j : Json) where
  open j use {Value, parse, member, get_or_empty, as_string, is_array, items, int, null, styled}

  -- txt_obj.get(name, "").asString()
  abbrev pub defaulted : Value → Bytes → Option Bytes
  defaulted v name = elim (get_or_empty v name) [ none ↦ none | some x ↦ as_string x ]

  -- The records of PushMessages, from the elements of a text_array.
  unfoldable pub text_items : List Value → M (List TextItem)
  text_items [] = pure []
  text_items (v ∷ vs) = do
    msgid ← or_throw (defaulted v (codes "msgid"))
    content ← or_throw (defaulted v (codes "content"))
    rest ← text_items vs
    pure (record { msgid = msgid; content = content } ∷ rest)

  abbrev push_items : Bytes → ℤ → ℤ → List Value → M (Unit {0})
  push_items session_id from_uid to_uid values = do
    texts ← text_items values
    call (persist session_id from_uid to_uid texts)

  -- PushMessages up to its lock; minichat.Persist.push_messages is the rest.
  unfoldable pub push_text_array : Bytes → ℤ → ℤ → Value → M (Unit {0})
  push_text_array session_id from_uid to_uid text_array =
      if not (is_array text_array) || is_empty (items text_array)
      then pure tt
      else push_items session_id from_uid to_uid (items text_array)

  -- The loop that adds the text messages to a request.
  unfoldable pub text_msgs : List Value → M (List TextChatData)
  text_msgs [] = pure []
  text_msgs (v ∷ vs) = do
    content ← or_throw (string_field j v (codes "content"))
    msgid ← or_throw (string_field j v (codes "msgid"))
    rest ← text_msgs vs
    pure (record { msgid = msgid; msgcontent = content } ∷ rest)

  abbrev pub text_req : ℤ → ℤ → Value → M TextChatMsgReq
  text_req fromuid touid arrays = do
    textmsgs ← text_msgs (items arrays)
    pure (record { fromuid = fromuid; touid = touid; textmsgs = textmsgs })

  -- The body of the reply and of the notification.
  abbrev pub text_value : ℤ → ℤ → Value → Value
  text_value fromuid touid arrays = assigned j null (
      (codes "error", error_of j ErrorCodes.success)
      ∷ (codes "text_array", arrays)
      ∷ (codes "fromuid", int fromuid)
      ∷ (codes "touid", int touid)
      ∷ [])

  -- The notification of DeliverWrappedToMember assigns the members in another order.
  abbrev pub wrapped_value : ℤ → ℤ → Value → Value
  wrapped_value from_uid member_uid wrapped_array = assigned j null (
      (codes "error", error_of j ErrorCodes.success)
      ∷ (codes "fromuid", int from_uid)
      ∷ (codes "touid", int member_uid)
      ∷ (codes "text_array", wrapped_array)
      ∷ [])

  module _ (env : Env) where
    abbrev pub reply_error : Option ℕ → ℕ
    reply_error none = ErrorCodes.rpc_failed
    reply_error (some e) = e

    -- The error code of what NotifyTextChatMsg returns.
    unfoldable pub notify_text_chat_msg : Bytes → TextChatMsgReq → M ℕ
    notify_text_chat_msg server req =
        if contains server env.peers
        then ask (grpc_text_msg server req) (λ cs. reply_error (env.text_msg cs server req))
        else pure ErrorCodes.rpc_failed

    abbrev pub send_each : Bytes → ℕ → List SessionPtr → M (Unit {0})
    send_each notify msg_id sessions = each sessions (λ session. call (send session notify msg_id))

    abbrev pub withdraw : ℤ → Bool → M Bool
    withdraw touid delivered = do remove_online_server j env touid; pure delivered

    abbrev pub to_sessions : Bytes → List SessionPtr → M Bool
    to_sessions notify sessions = do
      send_each notify MsgIds.notify_text_chat_msg_req sessions
      pure true

    abbrev pub deliver_here : ℤ → Bytes → Bool → M Bool
    deliver_here touid notify delivered = do
      sessions ← ask_users (λ users. get_sessions users touid)
      if is_empty sessions then withdraw touid delivered else to_sessions notify sessions

    abbrev pub deliver_there : Bytes → M TextChatMsgReq → Bool → M Bool
    deliver_there server make_req delivered = do
      req ← make_req
      error ← notify_text_chat_msg server req
      pure (delivered || error == ErrorCodes.success)

    -- The body of the loop over the servers. DeliverWrappedToMember makes the request inside.
    unfoldable pub deliver_at : ℤ → Bytes → M TextChatMsgReq → Bool → Bytes → M Bool
    deliver_at touid notify make_req delivered server =
        if server == env.self_name
        then deliver_here touid notify delivered
        else deliver_there server make_req delivered

    -- That loop, and the offline queue where nothing was delivered.
    abbrev pub deliver_all : ℤ → Bytes → M TextChatMsgReq → M (Unit {0}) → List Bytes → M (Unit {0})
    deliver_all touid notify make_req save servers = do
      delivered ← each_flag false servers (deliver_at touid notify make_req)
      if delivered then pure tt else save

    abbrev pub chat_online : ℤ → ℤ → Value → Bytes → List Bytes → M (Unit {0})
    chat_online uid touid arrays ack servers = do
      req ← text_req uid touid arrays
      deliver_all touid ack (pure req) (save_offline_text_msg j env uid touid arrays) servers

    abbrev pub chat_at : ℤ → ℤ → Value → Bytes → List Bytes → M (Unit {0})
    chat_at uid touid arrays ack servers =
        if is_empty servers
        then save_offline_text_msg j env uid touid arrays
        else chat_online uid touid arrays ack servers

    -- What DealChatTextMsg does behind the ACK.
    unfoldable pub chat_text : ℤ → ℤ → Value → Bytes → M (Unit {0})
    chat_text uid touid arrays ack = do
      push_text_array (make_session_id uid touid) uid touid arrays
      servers ← get_online_servers j env touid
      chat_at uid touid arrays ack servers

    unfoldable pub deal_chat_text_msg : SessionPtr → Bytes → M (Unit {0})
    deal_chat_text_msg session msg_data = do
      uid ← or_throw (int_field j (parse msg_data) (codes "fromuid"))
      touid ← or_throw (int_field j (parse msg_data) (codes "touid"))
      arrays ← or_throw (member (parse msg_data) (codes "text_array"))
      call (send session (styled (text_value uid touid arrays)) MsgIds.text_chat_msg_rsp)
      chat_text uid touid arrays (styled (text_value uid touid arrays))

    abbrev save_wrapped : ℤ → Bytes → Bool → M (Unit {0})
    save_wrapped member_uid notify allow_offline =
        if allow_offline
        then ignore (Redis.rpush env (offline_msg_key member_uid) notify)
        else pure tt

    abbrev wrapped_online : ℤ → ℤ → Value → Bytes → Bool → List Bytes → M (Unit {0})
    wrapped_online from_uid member_uid wrapped_array notify allow_offline servers =
        deliver_all member_uid notify (text_req from_uid member_uid wrapped_array)
          (save_wrapped member_uid notify allow_offline) servers

    abbrev wrapped_at : ℤ → ℤ → Value → Bytes → Bool → List Bytes → M (Unit {0})
    wrapped_at from_uid member_uid wrapped_array notify allow_offline servers =
        if is_empty servers
        then save_wrapped member_uid notify allow_offline
        else wrapped_online from_uid member_uid wrapped_array notify allow_offline servers

    abbrev wrapped_to : ℤ → ℤ → Value → Bytes → Bool → M (Unit {0})
    wrapped_to from_uid member_uid wrapped_array notify allow_offline = do
      servers ← get_online_servers j env member_uid
      wrapped_at from_uid member_uid wrapped_array notify allow_offline servers

    unfoldable pub deliver_wrapped_to_member : ℤ → ℤ → Value → Bool → M (Unit {0})
    deliver_wrapped_to_member from_uid member_uid wrapped_array allow_offline =
        wrapped_to from_uid member_uid wrapped_array
          (styled (wrapped_value from_uid member_uid wrapped_array)) allow_offline
