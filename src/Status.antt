-- ===== src/Status.antt =====
-- StatusServer/StatusServiceImpl.cpp: the choice of a chat server, and the tokens.
-- Redis is a parameter: its answer may depend on all earlier commands, newest first. A command that
-- throws ends the call, which is `none`.
pub mod Choice
pub mod Tokens
use minichat.Base.{
  ℕ, Bool, Option, none, some, List, [], ◌∷◌, ◌++◌, Bytes, not, is_empty, ◌==◌, bytes_eq,
  if◌then◌else◌,
}
use minichat.Base.Int.{ℤ, leb_ℤ}
use minichat.Base.Decimal.{to_string}
use minichat.Const.ErrorCodes
use minichat.Const.Prefix
use minichat.Chat.World.{Reply, answer, failure}

pub record ChatServer : Type 0 where
  pub host : Bytes
  pub port : Bytes
  pub name : Bytes
  pub con_count : ℤ

pub data Command : Type 0 where
  get : Bytes → Command
  set : Bytes → Bytes → Command

pub record Store : Type 0 where
  pub getting : List Command → Bytes → Reply (Option Bytes)
  pub setting : List Command → Bytes → Bytes → Reply Bool

pub record GetChatServerRsp : Type 0 where
  pub error : ℕ
  pub host : Bytes
  pub port : Bytes
  pub token : Bytes

-- The error code, and the uid and token that stand in a reply of success.
pub record LoginRsp : Type 0 where
  pub error : ℕ
  pub granted : Option (ℤ × Bytes)

-- The loop of getChatServer over `_servers`.
unfoldable pub pick : ChatServer → List ChatServer → ChatServer
pick server [] = server
pick server (i ∷ rest) = pick (if not (leb_ℤ i.con_count server.con_count) then i else server) rest

-- `_servers.begin()` needs a server.
unfoldable pub choose_server : List ChatServer → Option ChatServer
unfolding pick
choose_server [] = none
choose_server (server ∷ rest) = some (pick server (server ∷ rest))

abbrev pub token_key : ℤ → Bytes
token_key uid = Prefix.user_token ++ to_string uid

module _ (store : Store) where
  abbrev stored :
      ChatServer → Bytes → Reply Bool → List Command → Option (GetChatServerRsp × List Command)
  stored server token failure log = none
  stored server token (answer b) log = some (
    record { error = ErrorCodes.success; host = server.host; port = server.port; token = token },
    log,
  )

  abbrev hand_out :
      Option ChatServer → ℤ → Bytes → List Command → Option (GetChatServerRsp × List Command)
  hand_out none uid token log = none
  hand_out (some server) uid token log =
      stored server token (store.setting log (token_key uid) token)
        (set (token_key uid) token ∷ log)

  -- GetChatServer with insertToken; the token is the fresh UUID.
  unfoldable pub get_chat_server :
      List ChatServer → ℤ → Bytes → List Command → Option (GetChatServerRsp × List Command)
  unfolding choose_server
  get_chat_server servers uid token log = hand_out (choose_server servers) uid token log

  abbrev pub verdict : ℤ → Bytes → Option Bytes → LoginRsp
  verdict uid token none = record { error = ErrorCodes.uid_invalid; granted = none }
  verdict uid token (some token_value) =
      if token_value == token
      then record { error = ErrorCodes.success; granted = some (uid, token) }
      else record { error = ErrorCodes.token_invalid; granted = none }

  abbrev looked_up :
      ℤ → Bytes → Reply (Option Bytes) → List Command → Option (LoginRsp × List Command)
  looked_up uid token failure log = none
  looked_up uid token (answer found) log = some (verdict uid token found, log)

  -- StatusServiceImpl::Login
  unfoldable pub login : ℤ → Bytes → List Command → Option (LoginRsp × List Command)
  login uid token log =
      looked_up uid token (store.getting log (token_key uid)) (get (token_key uid) ∷ log)

  -- The free function Login behind it, which takes the test for a stored token the other way round;
  -- `token_value` is empty where there is none.
  abbrev pub free_verdict : ℤ → Bytes → Option Bytes → LoginRsp
  free_verdict uid token (some token_value) = record {
    error = ErrorCodes.uid_invalid;
    granted = none;
  }
  free_verdict uid token none =
      if is_empty token
      then record { error = ErrorCodes.success; granted = some (uid, token) }
      else record { error = ErrorCodes.token_invalid; granted = none }
