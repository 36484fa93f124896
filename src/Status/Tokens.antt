-- ===== src/Status/Tokens.antt =====
-- A token that was handed out is accepted, and no other.
use minichat.Base.{◌≡◌, refl, Bool, none, some, List, ◌∷◌, Bytes, ◌==◌, bytes_eq, if◌then◌else◌}
use minichat.Base.Int.{ℤ}
use minichat.Const.ErrorCodes
use minichat.Chat.World.{answer}
use minichat.Status.{
  ChatServer, Command, get, set, Store, GetChatServerRsp, choose_server, token_key, get_chat_server,
  login,
}

-- Redis: a command of SET or GET is answered, and a GET gives what the last SET on its key stored.
pub record IsStore (store : Store) : Type 0 where
  pub sets :
      (log : List Command) (key value : Bytes)
      → (b : Bool) × (store.setting log key value ≡ answer b)
  pub get-set :
      (log : List Command) (key value : Bytes)
      → store.getting (set key value ∷ log) key ≡ answer (some value)

-- GetChatServer for a user, and then Login for the same user with any token: the login succeeds
-- exactly when the token is the one that was handed out, and otherwise the error is TokenInvalid.
pub get_chat_server-login :
    (store : Store) (servers : List ChatServer) (server : ChatServer) (uid : ℤ)
    (token attempt : Bytes) (log : List Command)
    → IsStore store
    → choose_server servers ≡ some server
    → (rsp : GetChatServerRsp) × (log' : List Command) × (get_chat_server store servers uid token
          log
        ≡ some (rsp, log'))
      × (rsp.token ≡ token)
      × (rsp.host ≡ server.host)
      × (rsp.port ≡ server.port)
      × (login store uid attempt log'
          ≡ some (
            if token == attempt
                then record { error = ErrorCodes.success; granted = some (uid, attempt) }
                else record { error = ErrorCodes.token_invalid; granted = none },
            get (token_key uid) ∷ log',
          ))
unfolding get_chat_server login
get_chat_server-login store servers server uid token attempt log s e =
    let (b, e') = s.sets log (token_key uid) token in
    (
      record { error = ErrorCodes.success; host = server.host; port = server.port; token = token },
      set (token_key uid) token ∷ log,
      rw (e, e') refl,
      refl,
      refl,
      refl,
      rw (s.get-set log (token_key uid) token) refl,
    )
