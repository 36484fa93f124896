-- ===== src/Gate/Accounts.antt =====
-- GateServer/LogicSystem.cpp: the handlers of the POST requests, from the body of a request to the
-- body of the response. Redis, MySQL and the two gRPC services are parameters, whose answers may
-- depend on all earlier calls, newest first. An exception is `none`.
pub mod Guarded
pub mod Admission
use minichat.Base.{
  ℕ, Bool, Option, none, some, List, [], ◌∷◌, ◌++◌, Bytes, codes, ◌==◌, bytes_eq, nat_eq, ◌||◌,
  if◌then◌else◌,
}
use minichat.Base.Int.{ℤ, pos, negsuc, int_eq}
use minichat.Const.ErrorCodes
use minichat.Const.Prefix
use minichat.Chat.Json.{Json, assigned, string_field}
use minichat.Chat.World.{Reply, answer, failure}

pub data Call : Type 0 where
  redis_get : Bytes → Call
  reg_user : Bytes → Bytes → Bytes → Bytes → Call
  check_email : Bytes → Bytes → Call
  update_pwd : Bytes → Bytes → Call
  check_pwd : Bytes → Bytes → Call
  get_varify_code : Bytes → Call
  get_chat_server : ℤ → Call

pub record VarifyRsp : Type 0 where
  pub error : ℤ
  pub email : Bytes

pub record ChatServerRsp : Type 0 where
  pub error : ℤ
  pub token : Bytes
  pub host : Bytes
  pub port : Bytes

pub record Env : Type 0 where
  pub get : List Call → Bytes → Reply (Option Bytes)
  pub registered : List Call → Bytes → Bytes → Bytes → Bytes → ℤ
  pub email_valid : List Call → Bytes → Bytes → Bool
  pub updated : List Call → Bytes → Bytes → Bool
  -- whether the password is right, and the user's uid
  pub pwd_valid : List Call → Bytes → Bytes → Bool × ℤ
  pub varify_code : List Call → Bytes → VarifyRsp
  pub chat_server : List Call → ℤ → ChatServerRsp

abbrev pub M : Type 0 → Type 0
M A = List Call → Option (A × List Call)

abbrev pub followed : {A B : Type 0} → Option (A × List Call) → (A → M B) → Option (B × List Call)
followed none f = none
followed (some (a, log)) f = f a log

infixl 5 ◌>>=◌
abbrev pub ◌>>=◌ : {A B : Type 0} → M A → (A → M B) → M B
◌>>=◌ m f log = followed (m log) f

abbrev pub pure : {A : Type 0} → A → M A
pure a log = some (a, log)

abbrev pub ask : {A : Type 0} → Call → (List Call → A) → M A
ask c reply log = some (reply log, c ∷ log)

abbrev pub or_throw : {A : Type 0} → Option A → M A
or_throw none log = none
or_throw (some a) log = some (a, log)

abbrev pub or_raise : {A : Type 0} → Reply A → M A
or_raise failure log = none
or_raise (answer a) log = some (a, log)

module _ (j : Json) where
  open j use {Value, parse, parses, member, string, int, null, set}

  abbrev pub failed : ℕ → Value
  failed e = set null (codes "error") (int (pos e))

  -- src_root[name].asString()
  abbrev pub text_of : Bytes → Bytes → Option Bytes
  text_of body name = string_field j (parse body) name

  module _ (env : Env) where
    abbrev pub stored_code : Bytes → M (Option Bytes)
    stored_code email = do
      reply ← ask (redis_get (Prefix.code ++ email)) (λ log. env.get log (Prefix.code ++ email))
      or_raise reply

    -- The two tests of the verification code, and what follows when they pass.
    abbrev pub with_code : Bytes → (Bytes → M Value) → Option Bytes → M Value
    with_code body next none = pure (failed ErrorCodes.varify_expired)
    with_code body next (some varify_code) = do
      given ← or_throw (text_of body (codes "varifycode"))
      if varify_code == given then next given else pure (failed ErrorCodes.varify_code_err)

    -- /get_varifycode
    unfoldable pub get_varifycode : Bytes → M Value
    get_varifycode body =
        if parses body
        then (do
          email ← or_throw (text_of body (codes "email"))
          reply ← ask (get_varify_code email) (λ log. env.varify_code log email)
          pure (
              assigned j null
                ((codes "error", int reply.error) ∷ (codes "email", string reply.email) ∷ [])))
        else pure (failed ErrorCodes.error_json)

    abbrev pub registered_value : ℤ → Bytes → Bytes → Bytes → Bytes → Bytes → Bytes → Value
    registered_value uid email name pwd confirm icon code = assigned j null (
        (codes "error", int (pos 0))
        ∷ (codes "uid", int uid)
        ∷ (codes "email", string email)
        ∷ (codes "user", string name)
        ∷ (codes "passwd", string pwd)
        ∷ (codes "confirm", string confirm)
        ∷ (codes "icon", string icon)
        ∷ (codes "varifycode", string code)
        ∷ [])

    abbrev pub register : Bytes → Bytes → Bytes → Bytes → Bytes → Bytes → M Value
    register email name pwd confirm icon code = do
      uid ← ask (reg_user name email pwd icon) (λ log. env.registered log name email pwd icon)
      if uid == pos 0 || uid == negsuc 0
          then pure (failed ErrorCodes.user_exist)
          else pure (registered_value uid email name pwd confirm icon code)

    abbrev pub register_checked : Bytes → Bytes → Bytes → Bytes → Bytes → Bytes → M Value
    register_checked body email name pwd confirm icon = do
      stored ← stored_code email
      with_code body (register email name pwd confirm icon) stored

    -- /user_register
    unfoldable pub user_register : Bytes → M Value
    user_register body =
        if parses body
        then (do
          email ← or_throw (text_of body (codes "email"))
          name ← or_throw (text_of body (codes "user"))
          pwd ← or_throw (text_of body (codes "passwd"))
          confirm ← or_throw (text_of body (codes "confirm"))
          icon ← or_throw (text_of body (codes "icon"))
          if pwd == confirm
              then register_checked body email name pwd confirm icon
              else pure (failed ErrorCodes.passwd_err))
        else pure (failed ErrorCodes.error_json)

    abbrev pub reset_value : Bytes → Bytes → Bytes → Bytes → Value
    reset_value email name pwd code = assigned j null (
        (codes "email", string email)
        ∷ (codes "name", string name)
        ∷ (codes "passwd", string pwd)
        ∷ (codes "error", int (pos 0))
        ∷ (codes "varifycode", string code)
        ∷ [])

    abbrev pub update : Bytes → Bytes → Bytes → Bytes → M Value
    update email name pwd code = do
      up ← ask (update_pwd name pwd) (λ log. env.updated log name pwd)
      if up
          then pure (reset_value email name pwd code)
          else pure (failed ErrorCodes.passwd_up_failed)

    abbrev pub reset : Bytes → Bytes → Bytes → Bytes → M Value
    reset email name pwd code = do
      valid ← ask (check_email name email) (λ log. env.email_valid log name email)
      if valid then update email name pwd code else pure (failed ErrorCodes.email_not_match)

    -- /reset_pwd
    unfoldable pub reset_pwd : Bytes → M Value
    reset_pwd body =
        if parses body
        then (do
          email ← or_throw (text_of body (codes "email"))
          name ← or_throw (text_of body (codes "name"))
          pwd ← or_throw (text_of body (codes "passwd"))
          stored ← stored_code email
          with_code body (reset email name pwd) stored)
        else pure (failed ErrorCodes.error_json)

    abbrev pub login_value : Bytes → ℤ → ChatServerRsp → Value
    login_value email uid reply = assigned j null (
        (codes "error", int (pos 0))
        ∷ (codes "email", string email)
        ∷ (codes "uid", int uid)
        ∷ (codes "token", string reply.token)
        ∷ (codes "host", string reply.host)
        ∷ (codes "port", string reply.port)
        ∷ [])

    abbrev pub assign_server : Bytes → ℤ → M Value
    assign_server email uid = do
      reply ← ask (get_chat_server uid) (λ log. env.chat_server log uid)
      if reply.error == pos 0
          then pure (login_value email uid reply)
          else pure (failed ErrorCodes.rpc_failed)

    -- /user_login
    unfoldable pub user_login : Bytes → M Value
    user_login body =
        if parses body
        then (do
          email ← or_throw (text_of body (codes "email"))
          pwd ← or_throw (text_of body (codes "passwd"))
          found ← ask (check_pwd email pwd) (λ log. env.pwd_valid log email pwd)
          if found.0 then assign_server email found.1 else pure (failed ErrorCodes.passwd_invalid))
        else pure (failed ErrorCodes.error_json)
