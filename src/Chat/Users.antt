-- ===== src/Chat/Users.antt =====
-- ChatSever/LogicSystem.cpp: the user cache in Redis, the search for a user, and how a handler
-- answers.
pub mod Cache
use minichat.Base.{
  ℕ, Bool, true, Option, none, some, List, [], ◌∷◌, ◌++◌, Bytes, codes, leb, ◌&&◌, if◌then◌else◌,
}
use minichat.Base.Int.{ℤ, pos}
use minichat.Base.Decimal.{to_string}
use minichat.Const.ErrorCodes
use minichat.Const.MsgIds
use minichat.Const.Prefix
use minichat.Settings.{stoi}
use minichat.UserMgr.{SessionPtr}
use minichat.Chat.Json.{Json, assigned, int_field, string_field}
use minichat.Chat.Redis
use minichat.Chat.World.{
  UserInfo, Env, mysql_get_user, mysql_get_user_by_name, send, M, ◌>>=◌, ◌>>◌, pure, or_throw, call,
  ask, ignore,
}

abbrev pub user_base_key : ℤ → Bytes
user_base_key uid = Prefix.user_base_info ++ to_string uid

unfoldable pub is_pure_digit : Bytes → Bool
is_pure_digit [] = true
is_pure_digit (c ∷ s) = let rest = is_pure_digit s in leb b'0' c && leb c b'9' && rest

module _ (j : Json) where
  open j use {Value, parse, string, int, null, set, styled}

  abbrev pub error_of : ℕ → Value
  error_of e = int (pos e)

  abbrev pub success_fields : List (Bytes × Value) → Value
  success_fields fields = assigned j null ((codes "error", error_of ErrorCodes.success) ∷ fields)

  -- A handler whose Defer sends `rtvalue` at its end.
  abbrev pub answering : SessionPtr → ℕ → M Value → M (Unit {0})
  answering session msg_id body = do rtvalue ← body; call (send session (styled rtvalue) msg_id)

  abbrev user_fields : UserInfo → List (Bytes × Value)
  user_fields u =
      (codes "uid", int u.uid)
      ∷ (codes "pwd", string u.pwd)
      ∷ (codes "name", string u.name)
      ∷ (codes "email", string u.email)
      ∷ (codes "nick", string u.nick)
      ∷ (codes "desc", string u.desc)
      ∷ (codes "sex", int u.sex)
      ∷ []

  -- The icon is a member too, but not of the entries that are kept by name.
  abbrev with_icon : UserInfo → List (Bytes × Value)
  with_icon u = user_fields u ++ (codes "icon", string u.icon) ∷ []

  -- The text that GetBaseInfo caches of a row.
  abbrev pub cached_text : ℤ → UserInfo → Bytes
  cached_text uid user = styled (assigned j null (with_icon (record user { uid = uid })))

  -- The members that are read from a cached text, in the order of the code.
  abbrev read_by_name : Bytes → M UserInfo
  read_by_name text = do
    uid ← or_throw (int_field j (parse text) (codes "uid"))
    name ← or_throw (string_field j (parse text) (codes "name"))
    pwd ← or_throw (string_field j (parse text) (codes "pwd"))
    email ← or_throw (string_field j (parse text) (codes "email"))
    nick ← or_throw (string_field j (parse text) (codes "nick"))
    desc ← or_throw (string_field j (parse text) (codes "desc"))
    sex ← or_throw (int_field j (parse text) (codes "sex"))
    pure (record {
      name = name;
      pwd = pwd;
      uid = uid;
      email = email;
      nick = nick;
      desc = desc;
      sex = sex;
      icon = [];
    })

  abbrev pub read_user : Bytes → M UserInfo
  read_user text = do
    user ← read_by_name text
    icon ← or_throw (string_field j (parse text) (codes "icon"))
    pure (record user { icon = icon })

  module _ (env : Env) where
    -- What GetBaseInfo does on a miss: the row of MySQL, which is written to the cache under `uid`.
    abbrev pub load_user : Bytes → ℤ → Option UserInfo → M (Option UserInfo)
    load_user base_key uid none = pure none
    load_user base_key uid (some user) = do
      ignore (Redis.set env base_key (cached_text uid user))
      pure (some user)

    abbrev pub base_info_of : Bytes → ℤ → Option Bytes → M (Option UserInfo)
    base_info_of base_key uid (some text) = do user ← read_user text; pure (some user)
    base_info_of base_key uid none = do
      row ← ask (mysql_get_user uid) (λ cs. env.get_user cs uid)
      load_user base_key uid row

    -- GetBaseInfo: `none` for its `false`. The caller's pointer is not null.
    unfoldable pub get_base_info : Bytes → ℤ → M (Option UserInfo)
    get_base_info base_key uid = do
      cached ← Redis.get env base_key
      base_info_of base_key uid cached

    abbrev found_by_uid : Bytes → Value → Option UserInfo → M Value
    found_by_uid base_key rtvalue none =
        pure (set rtvalue (codes "error") (error_of ErrorCodes.uid_invalid))
    found_by_uid base_key rtvalue (some user) = do
      ignore (Redis.set env base_key (styled (assigned j null (with_icon user))))
      pure (assigned j rtvalue (with_icon user))

    abbrev by_uid : Bytes → Bytes → Value → Option Bytes → M Value
    by_uid base_key uid_str rtvalue (some text) = do
      user ← read_user text
      pure (assigned j rtvalue (with_icon user))
    by_uid base_key uid_str rtvalue none = do
      uid ← or_throw (stoi uid_str)
      row ← ask (mysql_get_user uid) (λ cs. env.get_user cs uid)
      found_by_uid base_key rtvalue row

    unfoldable pub get_user_by_uid : Bytes → Value → M Value
    get_user_by_uid uid_str rtvalue = do
      cached ← Redis.get env (Prefix.user_base_info ++ uid_str)
      by_uid (Prefix.user_base_info ++ uid_str) uid_str
          (set rtvalue (codes "error") (error_of ErrorCodes.success)) cached

    abbrev found_by_name : Bytes → Value → Option UserInfo → M Value
    found_by_name base_key rtvalue none =
        pure (set rtvalue (codes "error") (error_of ErrorCodes.uid_invalid))
    found_by_name base_key rtvalue (some user) = do
      ignore (Redis.set env base_key (styled (assigned j null (user_fields user))))
      pure (assigned j rtvalue (user_fields user))

    abbrev by_name : Bytes → Bytes → Value → Option Bytes → M Value
    by_name base_key name rtvalue (some text) = do
      user ← read_by_name text
      pure (assigned j rtvalue (user_fields user))
    by_name base_key name rtvalue none = do
      row ← ask (mysql_get_user_by_name name) (λ cs. env.get_user_by_name cs name)
      found_by_name base_key rtvalue row

    unfoldable pub get_user_by_name : Bytes → Value → M Value
    get_user_by_name name rtvalue = do
      cached ← Redis.get env (Prefix.name_info ++ name)
      by_name (Prefix.name_info ++ name) name
          (set rtvalue (codes "error") (error_of ErrorCodes.success)) cached

    abbrev find_user : Bytes → M Value
    find_user uid_str =
        if is_pure_digit uid_str
        then get_user_by_uid uid_str null
        else get_user_by_name uid_str null

    unfoldable pub search_info : SessionPtr → Bytes → M (Unit {0})
    search_info session msg_data = do
      uid_str ← or_throw (string_field j (parse msg_data) (codes "uid"))
      answering session MsgIds.search_user_rsp (find_user uid_str)
