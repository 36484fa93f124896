-- ===== src/Chat/History.antt =====
-- ChatSever/LogicSystem.cpp: GetChatHistory and HeartBeatHandler.
use minichat.Base.{Option, none, some, List, [], ◌∷◌, ◌++◌, Bytes, codes, if◌then◌else◌, map}
use minichat.Base.Int.{ℤ, pos, int_eq, is_positive}
use minichat.Const.{chat_history_page_size}
use minichat.Const.ErrorCodes
use minichat.Const.MsgIds
use minichat.Persist.{make_session_id, group_session_id}
use minichat.UserMgr.{SessionPtr}
use minichat.Chat.Json.{Json, assigned, int_field, int64_field}
use minichat.Chat.World.{
  StoredMsg, Env, mysql_get_chat_msg_list, send, M, ◌>>=◌, pure, or_throw, call, ask,
}
use minichat.Chat.Users.{success_fields, error_of, answering}

-- The oldest id of a page, or 0.
abbrev pub next_cursor : List StoredMsg → ℤ
next_cursor [] = pos 0
next_cursor (m ∷ ms) = m.msg_id

module _ (j : Json) where
  open j use {
    Value, parse, member, is_member, as_int, is_array, items, array, string, int, null, set, styled,
  }

  -- root.isMember(name) ? root[name].asInt64() : otherwise
  abbrev int64_or : ℤ → Value → Bytes → Option ℤ
  int64_or otherwise root name =
      if is_member root name then int64_field j root name else some otherwise

  abbrev int_or : ℤ → Value → Bytes → Option ℤ
  int_or otherwise root name = if is_member root name then int_field j root name else some otherwise

  abbrev msg_item : StoredMsg → Value
  msg_item m = assigned j null (
      (codes "msg_id", int m.msg_id)
      ∷ (codes "fromuid", int m.from_uid)
      ∷ (codes "touid", int m.to_uid)
      ∷ (codes "msgid", string m.unique_id)
      ∷ (codes "content", string m.content)
      ∷ (codes "status", int m.status)
      ∷ (codes "create_time", string m.create_time)
      ∷ [])

  unfoldable pub heart_beat_handler : SessionPtr → Bytes → M (Unit {0})
  heart_beat_handler session msg_data = do
    uid ← or_throw (int_field j (parse msg_data) (codes "fromuid"))
    call (send session (styled (success_fields j [])) MsgIds.heartbeat_rsp)

  abbrev history_group : ℤ → List (Bytes × Value)
  history_group group_id =
      if is_positive group_id then (codes "group_id", int group_id) ∷ [] else []

  abbrev history_base : ℤ → ℤ → ℤ → Value
  history_base uid peer_uid group_id =
      success_fields j (
        ((codes "fromuid", int uid) ∷ (codes "touid", int peer_uid) ∷ []) ++ history_group group_id)

  abbrev history_value : Value → Option (List StoredMsg) → Value
  history_value v none = set v (codes "error") (error_of j ErrorCodes.error_json)
  history_value v (some msgs) = assigned j v (
      (codes "msg_array", array (map msg_item msgs))
      ∷ (codes "next_cursor", int (next_cursor msgs))
      ∷ [])

  -- A group conversation is keyed by the group, another one by the pair.
  unfoldable pub history_key : ℤ → ℤ → ℤ → Bytes
  history_key group_id uid peer_uid =
      if is_positive group_id then group_session_id group_id else make_session_id uid peer_uid

  module _ (env : Env) where
    abbrev history_body : ℤ → ℤ → ℤ → ℤ → ℤ → M Value
    history_body uid peer_uid group_id last_id limit = do
      history ←
          ask (mysql_get_chat_msg_list (history_key group_id uid peer_uid) last_id limit)
            (λ cs. env.get_chat_msg_list cs (history_key group_id uid peer_uid) last_id limit)
      pure (history_value (history_base uid peer_uid group_id) history)

    unfoldable pub get_chat_history : SessionPtr → Bytes → M (Unit {0})
    get_chat_history session msg_data = do
      uid ← or_throw (int_field j (parse msg_data) (codes "fromuid"))
      peer_uid ← or_throw (int_field j (parse msg_data) (codes "touid"))
      group_id ← or_throw (int64_or (pos 0) (parse msg_data) (codes "group_id"))
      last_id ← or_throw (int64_or (pos 0) (parse msg_data) (codes "last_msgid"))
      limit ← or_throw (int_or (pos chat_history_page_size) (parse msg_data) (codes "limit"))
      answering j session MsgIds.get_chat_history_rsp
          (history_body uid peer_uid group_id last_id limit)
