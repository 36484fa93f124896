-- ===== src/Examples/Services.antt =====
-- The status server with two chat servers, the account handlers on small requests, and a peer's
-- request.
use minichat.Base.{
  bytes_beq, beq_refl, ◌≡◌, refl, true, Option, none, some, List, [], ◌∷◌, Bytes, codes, ◌==◌,
  bytes_eq, if◌then◌else◌,
}
use minichat.Base.Int.{pos}
use minichat.Const.ErrorCodes
use minichat.Const.MsgIds
use minichat.Chat.Json.{Json}
use minichat.Chat.World.{answer, World, TextChatMsgReq}
use minichat.Status.{
  ChatServer, Store, Command, GetChatServerRsp, get_chat_server, login, token_key,
}
use minichat.Status.Choice.{choose_server_first}
use minichat.Status.Tokens.{IsStore, get_chat_server-login}
use minichat.Gate.Request.{HttpConnection, get}
use minichat.Gate.Accounts.{Env, user_register, reset_pwd, user_login}
use minichat.Gate.Accounts.Admission.{AdmissionEnd, user_login-AdmissionEnd}
use minichat.Gate.Accounts.Guarded.{
  Ends, RegisterEnd, ResetEnd, user_register-RegisterEnd, reset_pwd-ResetEnd,
}
use minichat.Examples.Documents.{text, documents, object}

abbrev first : ChatServer
first = record {
  host = codes "h1";
  port = codes "8090";
  name = codes "chatserver1";
  con_count = pos 0;
}

abbrev second : ChatServer
second = record {
  host = codes "h2";
  port = codes "8091";
  name = codes "chatserver2";
  con_count = pos 0;
}

-- The last SET in the log on the key.
abbrev last_set : List Command → Bytes → Option Bytes
last_set [] key = none
last_set (Command.set k v ∷ log) key =
    let earlier = last_set log key in if k == key then some v else earlier
last_set (Command.get k ∷ log) key = last_set log key

abbrev small_store : Store
small_store = record {
  getting = λ log key. answer (last_set log key);
  setting = λ log key value. answer true;
}

small_store-IsStore : IsStore small_store
small_store-IsStore = record {
  sets = λ log key value. (true, refl);
  get-set = λ log key value. rw (beq_refl key) refl;
}

get_chat_server-login_example :
    (rsp : GetChatServerRsp) × (log' : List Command) × (get_chat_server small_store
        (first ∷ second ∷ [])
        (pos 7)
        (codes "t")
        []
      ≡ some (rsp, log'))
    × (rsp.token ≡ codes "t")
    × (rsp.host ≡ first.host)
    × (rsp.port ≡ first.port)
    × (login small_store (pos 7) (codes "u") log'
        ≡ some (
          if codes "t" == codes "u"
              then record { error = ErrorCodes.success; granted = some (pos 7, codes "u") }
              else record { error = ErrorCodes.token_invalid; granted = none },
          Command.get (token_key (pos 7)) ∷ log',
        ))
get_chat_server-login_example =
    get_chat_server-login small_store (first ∷ second ∷ []) first (pos 7) (codes "t") (codes "u") []
      small_store-IsStore (choose_server_first first (second ∷ []) (refl, tt))

abbrev one_text : TextChatMsgReq
one_text = record {
  fromuid = pos 7;
  touid = pos 8;
  textmsgs = record { msgid = codes "m"; msgcontent = codes "c" } ∷ [];
}

abbrev request : Json
request = documents (codes "r") (
    object (
      (codes "email", text (codes "e"))
      ∷ (codes "user", text (codes "n"))
      ∷ (codes "name", text (codes "n"))
      ∷ (codes "passwd", text (codes "p"))
      ∷ (codes "confirm", text (codes "p"))
      ∷ (codes "icon", text [])
      ∷ (codes "varifycode", text (codes "1234"))
      ∷ []))

abbrev accounts : Env
accounts = record {
  get = λ log key. answer (some (codes "1234"));
  registered = λ log name email pwd icon. pos 5;
  email_valid = λ log name email. true;
  updated = λ log name pwd. true;
  pwd_valid = λ log email pwd. (true, pos 5);
  varify_code = λ log email. record { error = pos 0; email = email };
  chat_server = λ log uid. record { error = pos 0; token = codes "t"; host = []; port = [] };
}

abbrev untouched : HttpConnection
untouched = record { status = 0; written = []; body = [] }

user_register-RegisterEnd_example : Ends (user_register request accounts (codes "r") []) (
    RegisterEnd request accounts
      (codes "r")
      (codes "e")
      (codes "n")
      (codes "p")
      (codes "1234")
      (some (codes "1234"))
      []
      (codes "p")
      [])
unfolding bytes_beq
user_register-RegisterEnd_example =
    user_register-RegisterEnd request accounts (codes "r") (codes "e") (codes "n") (codes "p")
      (codes "1234") (some (codes "1234")) [] refl refl refl refl refl (codes "p") [] refl refl refl

reset_pwd-ResetEnd_example : Ends (reset_pwd request accounts (codes "r") []) (
    ResetEnd request accounts
      (codes "r")
      (codes "e")
      (codes "n")
      (codes "p")
      (codes "1234")
      (some (codes "1234"))
      [])
unfolding bytes_beq
reset_pwd-ResetEnd_example =
    reset_pwd-ResetEnd request accounts (codes "r") (codes "e") (codes "n") (codes "p")
      (codes "1234") (some (codes "1234")) [] refl refl refl refl refl refl

user_login-AdmissionEnd_example :
    Ends
      (user_login request accounts (codes "r") [])
      (AdmissionEnd request accounts (codes "e") (codes "p") [])
unfolding bytes_beq
user_login-AdmissionEnd_example =
    user_login-AdmissionEnd request accounts (codes "e") (codes "p") [] (codes "r") refl refl refl
