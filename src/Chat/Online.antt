-- ===== src/Chat/Online.antt =====
-- ChatSever/LogicSystem.cpp: which servers a user is connected to, kept in Redis under "uip_<uid>",
-- and the queue of messages for a user who is offline.
pub mod Registry
use minichat.Base.{
  Option, none, some, List, [], ◌∷◌, ◌++◌, Bytes, codes, ◌==◌, bytes_eq, contains, is_empty, not,
  ◌&&◌, if◌then◌else◌,
}
use minichat.Base.Int.{ℤ, pos}
use minichat.Base.Decimal.{to_string}
use minichat.Const.ErrorCodes
use minichat.Const.Prefix
use minichat.Chat.Json.{Json, assigned}
use minichat.Chat.Redis
use minichat.Chat.World.{Env, M, ◌>>=◌, ◌>>◌, pure, ignore, each}

abbrev pub offline_msg_key : ℤ → Bytes
offline_msg_key uid = Prefix.offline_msg ++ to_string uid

abbrev pub user_ip_key : ℤ → Bytes
user_ip_key uid = Prefix.user_ip ++ to_string uid

-- servers.erase(std::remove(begin, end, name), end)
unfoldable pub without : Bytes → List Bytes → List Bytes
without name [] = []
without name (s ∷ ss) = let rest = without name ss in if s == name then rest else s ∷ rest

-- push_back, unless the name is there.
unfoldable pub push_missing : Bytes → List Bytes → List Bytes
push_missing name servers = if contains name servers then servers else servers ++ name ∷ []

module _ (j : Json) where
  open j use {
    Value, parse, parses, is_array, is_string, items, as_string, string, array, int, null, styled,
  }

  abbrev take_server : List Bytes → Option Bytes → List Bytes
  take_server servers none = servers
  take_server servers (some server) =
      if not (is_empty server) && not (contains server servers)
      then servers ++ server ∷ []
      else servers

  -- The loop of ParseOnlineServers over the items of the array.
  unfoldable pub collect_servers : List Bytes → List Value → List Bytes
  collect_servers servers [] = servers
  collect_servers servers (item ∷ rest) =
      collect_servers (if is_string item then take_server servers (as_string item) else servers)
        rest

  unfoldable pub parse_online_servers : Bytes → List Bytes
  parse_online_servers value =
      if is_empty value
      then []
      else if parses value && is_array (parse value)
      then collect_servers [] (items (parse value))
      else value ∷ []

  -- SaveOfflineTextMsg
  abbrev pub offline_text_msg : ℤ → ℤ → Value → Value
  offline_text_msg fromuid touid text_array = assigned j null (
      (codes "error", int (pos ErrorCodes.success))
      ∷ (codes "fromuid", int fromuid)
      ∷ (codes "touid", int touid)
      ∷ (codes "text_array", text_array)
      ∷ [])

  module _ (env : Env) where
    unfoldable pub save_offline_text_msg : ℤ → ℤ → Value → M (Unit {0})
    save_offline_text_msg fromuid touid text_array = ignore (
        Redis.rpush env (offline_msg_key touid)
          (styled (offline_text_msg fromuid touid text_array)))

    abbrev parsed_servers : Option Bytes → List Bytes
    parsed_servers none = []
    parsed_servers (some value) = parse_online_servers value

    -- The value that the key holds as a string, from before it was a set.
    abbrev pub from_string : ℤ → M (List Bytes)
    from_string uid = do value ← Redis.get env (user_ip_key uid); pure (parsed_servers value)

    unfoldable pub get_online_servers : ℤ → M (List Bytes)
    get_online_servers uid = do
      servers ← Redis.smembers env (user_ip_key uid)
      if is_empty servers then from_string uid else pure servers

    -- The Del and the loop of SAdd with which the set is written anew.
    abbrev pub sadd_each : Bytes → List Bytes → M (Unit {0})
    sadd_each key servers = each servers (λ server. ignore (Redis.sadd env key server))

    abbrev pub rewrite_servers : ℤ → (List Bytes → List Bytes) → M (Unit {0})
    rewrite_servers uid change = do
      servers ← get_online_servers uid
      ignore (Redis.del env (user_ip_key uid))
      sadd_each (user_ip_key uid) (change servers)

    unfoldable pub add_online_server : ℤ → M (Unit {0})
    add_online_server uid = do
      added ← Redis.sadd env (user_ip_key uid) env.self_name
      if added then pure tt else rewrite_servers uid (push_missing env.self_name)

    unfoldable pub remove_online_server : ℤ → M (Unit {0})
    remove_online_server uid = do
      removed ← Redis.srem env (user_ip_key uid) env.self_name
      if removed then pure tt else rewrite_servers uid (without env.self_name)
