-- ===== src/Gate/Accounts/Admission.antt =====
-- GateServer/LogicSystem.cpp, /user_login: who is sent on to a chat server.
use minichat.Base.{◌≡◌, refl, Bool, true, false, some, List, ◌∷◌, Bytes, codes, ◌==◌, if◌then◌else◌}
use minichat.Base.Int.{ℤ, pos, int_eq}
use minichat.Const.ErrorCodes
use minichat.Chat.Json.{Json}
use minichat.Gate.Accounts.{
  Call, check_pwd, get_chat_server, Env, ChatServerRsp, text_of, failed, login_value, user_login,
  assign_server, pure,
}
use minichat.Gate.Accounts.Guarded.{Ends, picked}

module _ (j : Json) (env : Env) (email pwd : Bytes) (log : List Call) where
  open j use {Value, parses}

  abbrev pub checked : List Call
  checked = check_pwd email pwd ∷ log

  -- The uid that MySQL names, and the status server's answer for it.
  abbrev pub found_uid : ℤ
  found_uid = (env.pwd_valid log email pwd).1

  abbrev pub server : ChatServerRsp
  server = env.chat_server checked found_uid

  -- What /user_login does: the status server is asked if and only if MySQL accepts the password.
  pub data AdmissionEnd (v : Value) (log' : List Call) : Type 0 where
    refused :
        (env.pwd_valid log email pwd).0 ≡ false
        → v ≡ failed j ErrorCodes.passwd_invalid
        → log' ≡ checked
        → AdmissionEnd v log'
    admitted :
        (env.pwd_valid log email pwd).0 ≡ true
        → v ≡ (
            if server.error == pos 0
            then login_value j env email found_uid server
            else failed j ErrorCodes.rpc_failed)
        → log' ≡ get_chat_server found_uid ∷ checked
        → AdmissionEnd v log'

  -- /user_login, for a request with its members: the status server is asked for a chat server if and
  -- only if MySQL accepts the password, for the uid that MySQL names. The reply has the token and the
  -- address of the status server's answer when that is without error, and is an error otherwise.
  pub user_login-AdmissionEnd :
      (body : Bytes)
      → parses body ≡ true
      → text_of j body (codes "email") ≡ some email
      → text_of j body (codes "passwd") ≡ some pwd
      → Ends (user_login j env body log) AdmissionEnd
  unfolding user_login
  user_login-AdmissionEnd body parsed e1 e2 =
      rw (parsed, e1, e2) (decided (env.pwd_valid log email pwd).0 refl)
    where
      decided :
          (valid : Bool)
          → (env.pwd_valid log email pwd).0 ≡ valid
          → Ends
              ((if valid
                  then assign_server j env email found_uid
                  else pure (failed j ErrorCodes.passwd_invalid))
                checked)
              AdmissionEnd
      decided false e = (_, _, refl, refused e refl refl)
      decided true e = (
        _,
        _,
        picked (server.error == pos 0) (login_value j env email found_uid server)
            (failed j ErrorCodes.rpc_failed) (get_chat_server found_uid ∷ checked),
        admitted e refl refl,
      )
