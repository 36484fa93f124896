-- ===== src/Gate/Request.antt =====
-- GateServer/HttpConnection.cpp: HandleReq, with HandleGet and HandlePost of GateServer/LogicSystem.cpp.
-- What the handlers put into the body is in Gate/Accounts.antt.
pub mod Answers
use minichat.Base.{
  ℕ, Bool, Option, none, some, List, [], ◌∷◌, ◌++◌, Bytes, codes, ◌==◌, bytes_eq, contains,
  if◌then◌else◌,
}
use minichat.Chat.Json.{Json}
use minichat.Gate.Accounts.{Call, Env, M, get_varifycode, user_register, reset_pwd, user_login}
use minichat.Gate.Url.{Params, pre_parse_get_param}

pub data Method : Type 0 where
  get : Method
  post : Method
  other : Method

-- `written` lists the status of the response at each call of WriteResponse; `body` is what the POST
-- branch has put into the body of the response.
pub record HttpConnection : Type 0 where
  pub status : ℕ
  pub written : List ℕ
  pub body : Bytes

-- The urls that the constructor of LogicSystem registers.
abbrev pub get_urls : List Bytes
get_urls = codes "/get_test" ∷ []

abbrev pub post_urls : List Bytes
post_urls =
    codes "/get_varifycode" ∷ codes "/user_register" ∷ codes "/reset_pwd" ∷ codes "/user_login" ∷ []

unfoldable pub write_response : HttpConnection → HttpConnection
write_response c = record c { written = c.written ++ c.status ∷ [] }

abbrev pub with_status : ℕ → HttpConnection → HttpConnection
with_status status c = record c { status = status }

abbrev pub with_not_found : HttpConnection → HttpConnection
with_not_found c = record c { body = c.body ++ codes "url not found" }

-- What becomes of a request: a failed assertion of UrlDecode ends the process, an exception leaves
-- HandleReq, or HandleReq returns, with the calls that its handler has made.
pub data Handling : Type 0 where
  aborts : Handling
  throws : Handling
  returns : HttpConnection → List Call → Handling

-- HandleGet: whether there is a handler for the path in front of the question mark. The handler of
-- /get_test prints the parameters.
abbrev answer_get : HttpConnection → List Call → Option (Bytes × Params) → Handling
answer_get c log none = aborts
answer_get c log (some (url, params)) =
    returns (write_response (with_status (if contains url get_urls then 200 else 404) c)) log

module _ (j : Json) (env : Env) where
  -- The handlers of POST requests by url.
  unfoldable pub post_handler : Bytes → Option (Bytes → M j.Value)
  post_handler url =
      if codes "/get_varifycode" == url
      then some (get_varifycode j env)
      else if codes "/user_register" == url
      then some (user_register j env)
      else if codes "/reset_pwd" == url
      then some (reset_pwd j env)
      else if codes "/user_login" == url
      then some (user_login j env)
      else none

  -- The handler has put its value into the body of the response.
  abbrev pub with_body : HttpConnection → j.Value → HttpConnection
  with_body c v = record c { body = c.body ++ j.styled v }

  abbrev pub handled : HttpConnection → Option (j.Value × List Call) → Handling
  handled c none = throws
  handled c (some (v, log)) = returns (write_response (with_status 200 (with_body c v))) log

  -- HandlePost and what follows it: the branch for POST does not return behind the WriteResponse of an
  -- unknown url.
  abbrev pub answer_post :
      Bytes → HttpConnection → List Call → Option (Bytes → M j.Value) → Handling
  answer_post content c log none =
      returns
        (write_response (with_status 200 (write_response (with_not_found (with_status 404 c))))) log
  answer_post content c log (some handler) = handled c (handler content log)

  -- HandleReq, for a request with its target and its body.
  unfoldable pub handle_req : Method → Bytes → Bytes → HttpConnection → List Call → Handling
  unfolding write_response
  handle_req get target content c log = answer_get c log (pre_parse_get_param target)
  handle_req post target content c log = answer_post content c log (post_handler target)
  handle_req other target content c log = returns c log

  -- start: what a request that was read leaves of the connection. An exception is caught and printed
  -- there; an assertion leaves no process.
  abbrev pub caught : HttpConnection → Handling → Option HttpConnection
  caught c aborts = none
  caught c throws = some c
  caught c (returns d log) = some d

  unfoldable pub start : Method → Bytes → Bytes → HttpConnection → List Call → Option HttpConnection
  start method target content c log = caught c (handle_req method target content c log)
