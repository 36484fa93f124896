-- ===== src/Chat/Login.antt =====
-- ChatSever/LogicSystem.cpp: LoginHandler.
pub mod Ending
pub mod Binding
use minichat.Base.{
  ℕ, zero, suc, Bool, Option, none, some, List, [], ◌∷◌, ◌++◌, Bytes, codes, ◌==◌, nat_eq, bytes_eq,
  is_empty, if◌then◌else◌, map,
}
use minichat.Base.Int.{ℤ, pos, increment}
use minichat.Base.Decimal.{to_string}
use minichat.Const.ErrorCodes
use minichat.Const.MsgIds
use minichat.Const.Prefix
use minichat.Settings.{stoi}
use minichat.UserMgr.{SessionPtr, set_user_session}
use minichat.Chat.Json.{Json, assigned, int_field, string_field}
use minichat.Chat.Redis
use minichat.Chat.World.{
  UserInfo, FriendInfo, ApplyInfo, Env, mysql_get_apply_list, mysql_get_friend_list, M, ◌>>=◌, ◌>>◌,
  pure, or_throw, ask, ignore,
}
use minichat.Chat.Online.{offline_msg_key, add_online_server}
use minichat.Chat.Users.{error_of, answering, user_base_key, get_base_info}

-- session->SetUserId(uid) and UserMgr::SetUserSession(uid, session).
unfoldable pub bind_user : SessionPtr → ℤ → M (Unit {0})
bind_user session uid w =
    some (tt, record w { users = set_user_session w.users uid (w.uuids session) session })

abbrev pub assign_user_id : SessionPtr → ℤ → (SessionPtr → ℤ) → SessionPtr → ℤ
assign_user_id session uid ids p = if p == session then uid else ids p

unfoldable pub label_session : SessionPtr → ℤ → M (Unit {0})
label_session session uid w =
    some (tt, record w { user_ids = assign_user_id session uid w.user_ids })

module _ (j : Json) where
  open j use {Value, parse, parses, array, string, int, null, set}

  abbrev pub login_failed : ℕ → Value
  login_failed e = set null (codes "error") (error_of j e)

  -- The reply to a user whom neither Redis nor MySQL knows.
  abbrev pub unknown_user : Value
  unknown_user =
      set (login_failed ErrorCodes.success) (codes "error") (error_of j ErrorCodes.uid_invalid)

  abbrev apply_item : ApplyInfo → Value
  apply_item a = assigned j null (
      (codes "applyuid", int a.uid)
      ∷ (codes "uid", int a.uid)
      ∷ (codes "name", string a.name)
      ∷ (codes "desc", string a.desc)
      ∷ (codes "icon", string a.icon)
      ∷ (codes "nick", string a.nick)
      ∷ (codes "sex", int a.sex)
      ∷ (codes "status", int a.status)
      ∷ [])

  abbrev friend_item : FriendInfo → Value
  friend_item f = assigned j null (
      (codes "uid", int f.info.uid)
      ∷ (codes "name", string f.info.name)
      ∷ (codes "email", string f.info.email)
      ∷ (codes "nick", string f.info.nick)
      ∷ (codes "desc", string f.info.desc)
      ∷ (codes "sex", int f.info.sex)
      ∷ (codes "icon", string f.info.icon)
      ∷ (codes "back", string f.back)
      ∷ [])

  abbrev apply_member : Bool × List ApplyInfo → List (Bytes × Value)
  apply_member found =
      if found.0 then (codes "apply_list", array (map apply_item found.1)) ∷ [] else []

  abbrev friend_member : Bool × List FriendInfo → List (Bytes × Value)
  friend_member found =
      if found.0 then (codes "friend_list", array (map friend_item found.1)) ∷ [] else []

  abbrev pub login_fields : ℤ → UserInfo → List (Bytes × Value)
  login_fields uid u =
      (codes "error", error_of j ErrorCodes.success)
      ∷ (codes "uid", int uid)
      ∷ (codes "pwd", string u.pwd)
      ∷ (codes "name", string u.name)
      ∷ (codes "email", string u.email)
      ∷ (codes "nick", string u.nick)
      ∷ (codes "desc", string u.desc)
      ∷ (codes "sex", int u.sex)
      ∷ (codes "icon", string u.icon)
      ∷ []

  abbrev pub list_fields :
      Bool × List ApplyInfo → Bool × List FriendInfo → List Value → List (Bytes × Value)
  list_fields applies friends offline =
      apply_member applies
      ++ (friend_member friends ++ (codes "offline_msg_list", array offline) ∷ [])

  -- A text of the offline queue that does not parse is dropped.
  abbrev pub offline_item : Bytes → List Value → List Value
  offline_item text rest = if parses text then parse text ∷ rest else rest

  module _ (env : Env) where
    -- The loop over LPop, with `n` of the 200 rounds left.
    abbrev pub or_stop : (Bytes → M (List Value)) → Option Bytes → M (List Value)
    or_stop f none = pure []
    or_stop f (some text) = f text

    unfoldable pub pop_offline : ℕ → Bytes → M (List Value)
    pop_offline zero key = pure []
    pop_offline (suc n) key = do
      popped ← Redis.lpop env key
      or_stop (λ text. pop_offline n key >>= (λ rest. pure (offline_item text rest))) popped

    abbrev pub login_count : Bytes → Option ℤ
    login_count value = if is_empty value then some (pos 0) else stoi value

    unfoldable pub count_login : M (Unit {0})
    count_login = do
      value ← Redis.hget env Prefix.login_count env.self_name
      count ← or_throw (login_count value)
      next ← or_throw (increment count)
      ignore (Redis.hset env Prefix.login_count env.self_name (to_string next))

    abbrev pub logged_in : SessionPtr → ℤ → UserInfo → M Value
    logged_in session uid user = do
      applies ← ask (mysql_get_apply_list uid) (λ cs. env.get_apply_list cs uid)
      friends ← ask (mysql_get_friend_list uid) (λ cs. env.get_friend_list cs uid)
      offline ← pop_offline 200 (offline_msg_key uid)
      count_login
      label_session session uid
      add_online_server j env uid
      bind_user session uid
      pure (assigned j null (login_fields uid user ++ list_fields applies friends offline))

    abbrev pub with_user : SessionPtr → ℤ → Option UserInfo → M Value
    with_user session uid none = pure unknown_user
    with_user session uid (some user) = logged_in session uid user

    abbrev pub with_base_info : SessionPtr → ℤ → M Value
    with_base_info session uid = do
      user ← get_base_info j env (user_base_key uid) uid
      with_user session uid user

    abbrev pub with_token : SessionPtr → ℤ → Bytes → Option Bytes → M Value
    with_token session uid token none = pure (login_failed ErrorCodes.uid_invalid)
    with_token session uid token (some token_value) =
        if token_value == token
        then with_base_info session uid
        else pure (login_failed ErrorCodes.token_invalid)

    abbrev pub login_body : SessionPtr → ℤ → Bytes → M Value
    login_body session uid token = do
      token_value ← Redis.get env (Prefix.user_token ++ to_string uid)
      with_token session uid token token_value

    unfoldable pub login_handler : SessionPtr → Bytes → M (Unit {0})
    login_handler session msg_data = do
      uid ← or_throw (int_field j (parse msg_data) (codes "uid"))
      token ← or_throw (string_field j (parse msg_data) (codes "token"))
      answering j session MsgIds.chat_login_rsp (login_body session uid token)
