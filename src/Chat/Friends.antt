-- ===== src/Chat/Friends.antt =====
-- ChatSever/LogicSystem.cpp: AddFriendApply and AuthFriendApply, with NotifyAddFriend and
-- NotifyAuthFriend of ChatSever/ChatGrpcClient.cpp, whose replies the handlers ignore.
pub mod Telling
pub mod Notices
pub mod Approvals
use minichat.Base.{
  ℕ, Option, none, some, List, [], ◌∷◌, ◌++◌, Bytes, codes, ◌==◌, bytes_eq, contains, is_empty,
  if◌then◌else◌,
}
use minichat.Base.Int.{ℤ, pos}
use minichat.Const.ErrorCodes
use minichat.Const.MsgIds
use minichat.UserMgr.{SessionPtr, get_sessions}
use minichat.Chat.Json.{Json, assigned, int_field, string_field}
use minichat.Chat.World.{
  UserInfo, AddFriendReq, Env, Call, mysql_add_friend_apply, mysql_auth_friend_apply,
  mysql_add_friend, grpc_add_friend, grpc_auth_friend, M, ◌>>=◌, ◌>>◌, pure, or_throw, call,
  ask_users, each,
}
use minichat.Chat.Online.{get_online_servers, remove_online_server}
use minichat.Chat.Users.{error_of, answering, user_base_key, get_base_info}
use minichat.Chat.Text.{send_each}

module _ (j : Json) (env : Env) where
  open j use {Value, parse, string, int, null, set, styled}

  abbrev pub notify_here : ℤ → Bytes → ℕ → M (Unit {0})
  notify_here touid notify msg_id = do
    sessions ← ask_users (λ users. get_sessions users touid)
    if is_empty sessions
        then remove_online_server j env touid
        else send_each j env notify msg_id sessions

  -- The loop over the servers; `remote` is the gRPC request for one that this server has a pool for.
  unfoldable pub notify_all : ℤ → Bytes → ℕ → (Bytes → Call) → List Bytes → M (Unit {0})
  notify_all touid notify msg_id remote servers = each servers (λ server.
      if server == env.self_name
      then notify_here touid notify msg_id
      else if contains server env.peers
      then call (remote server)
      else pure tt)

  abbrev apply_icon : Option UserInfo → List (Bytes × Value)
  apply_icon none = []
  apply_icon (some u) =
      (codes "icon", string u.icon) ∷ (codes "sex", int u.sex) ∷ (codes "nick", string u.nick) ∷ []

  abbrev pub apply_value : ℤ → Bytes → Option UserInfo → Value
  apply_value uid applyname info = assigned j null (
      ((codes "error", error_of j ErrorCodes.success)
        ∷ (codes "applyuid", int uid)
        ∷ (codes "name", string applyname)
        ∷ (codes "desc", string [])
        ∷ [])
      ++ apply_icon info)

  abbrev pub add_req : ℤ → ℤ → Bytes → Option UserInfo → AddFriendReq
  add_req uid touid applyname none = record {
    applyuid = uid;
    touid = touid;
    name = applyname;
    desc = [];
    icon = [];
    nick = [];
    sex = pos 0;
  }
  add_req uid touid applyname (some u) = record {
    applyuid = uid;
    touid = touid;
    name = applyname;
    desc = [];
    icon = u.icon;
    nick = u.nick;
    sex = u.sex;
  }

  abbrev pub notify_apply : ℤ → ℤ → Bytes → List Bytes → M (Unit {0})
  notify_apply uid touid applyname servers = do
    info ← get_base_info j env (user_base_key uid) uid
    notify_all touid (styled (apply_value uid applyname info)) MsgIds.notify_add_friend_req
        (λ server. grpc_add_friend server (add_req uid touid applyname info)) servers

  abbrev pub apply_at : ℤ → ℤ → Bytes → List Bytes → M (Unit {0})
  apply_at uid touid applyname servers =
      if is_empty servers then pure tt else notify_apply uid touid applyname servers

  abbrev pub apply_body : ℤ → ℤ → Bytes → M Value
  apply_body uid touid applyname = do
    call (mysql_add_friend_apply uid touid)
    servers ← get_online_servers j env touid
    apply_at uid touid applyname servers
    pure (set null (codes "error") (error_of j ErrorCodes.success))

  unfoldable pub add_friend_apply : SessionPtr → Bytes → M (Unit {0})
  add_friend_apply session msg_data = do
    uid ← or_throw (int_field j (parse msg_data) (codes "uid"))
    applyname ← or_throw (string_field j (parse msg_data) (codes "applyname"))
    bakname ← or_throw (string_field j (parse msg_data) (codes "bakname"))
    touid ← or_throw (int_field j (parse msg_data) (codes "touid"))
    answering j session MsgIds.add_friend_rsp (apply_body uid touid applyname)

  abbrev basic_fields : UserInfo → List (Bytes × Value)
  basic_fields u =
      (codes "name", string u.name)
      ∷ (codes "nick", string u.nick)
      ∷ (codes "icon", string u.icon)
      ∷ (codes "sex", int u.sex)
      ∷ []

  -- What GetBaseInfo adds to a value, or its error code.
  abbrev with_basic : Value → List (Bytes × Value) → Option UserInfo → Value
  with_basic v more none = set v (codes "error") (error_of j ErrorCodes.uid_invalid)
  with_basic v more (some u) = assigned j v (basic_fields u ++ more)

  abbrev pub auth_value : ℤ → ℤ → Option UserInfo → Value
  auth_value uid touid info =
      with_basic
        (assigned j null (
          (codes "error", error_of j ErrorCodes.success)
          ∷ (codes "fromuid", int uid)
          ∷ (codes "touid", int touid)
          ∷ []))
        [] info

  abbrev pub notify_auth : ℤ → ℤ → List Bytes → M (Unit {0})
  notify_auth uid touid servers = do
    info ← get_base_info j env (user_base_key uid) uid
    notify_all touid (styled (auth_value uid touid info)) MsgIds.notify_auth_friend_req
        (λ server. grpc_auth_friend server uid touid) servers

  abbrev pub auth_at : ℤ → ℤ → List Bytes → M (Unit {0})
  auth_at uid touid servers = if is_empty servers then pure tt else notify_auth uid touid servers

  -- The value of the answer.
  abbrev pub auth_reply : ℤ → Option UserInfo → Value
  auth_reply touid info =
      with_basic (set null (codes "error") (error_of j ErrorCodes.success))
        ((codes "uid", int touid) ∷ []) info

  abbrev pub auth_body : ℤ → ℤ → Bytes → Option UserInfo → M Value
  auth_body uid touid back_name info = do
    call (mysql_auth_friend_apply uid touid)
    call (mysql_add_friend uid touid back_name)
    servers ← get_online_servers j env touid
    auth_at uid touid servers
    pure (auth_reply touid info)

  unfoldable pub auth_friend_apply : SessionPtr → Bytes → M (Unit {0})
  auth_friend_apply session msg_data = do
    uid ← or_throw (int_field j (parse msg_data) (codes "fromuid"))
    touid ← or_throw (int_field j (parse msg_data) (codes "touid"))
    back_name ← or_throw (string_field j (parse msg_data) (codes "back"))
    info ← get_base_info j env (user_base_key touid) touid
    answering j session MsgIds.auth_friend_rsp (auth_body uid touid back_name info)
