-- ===== src/Peers.antt =====
-- ChatSever/ChatGrpcClient.cpp and ChatGrpcClient.h: the pools of stubs, one for each peer, and the
-- three notifications; and the clients with one pool, StatusGrpcClient.cpp and VerifyGrpcClinet.h of
-- the GateServer, whose pools (StatusConPool, RPConPool) are the same code.
-- A stub is a number. What a remote call does is a parameter: whether its status is OK, and the reply
-- that it leaves. No other thread uses the pool between the two critical sections of a notification.
pub mod Calls
use minichat.Base.{
  ℕ, Bool, true, false, Option, none, some, List, [], ◌∷◌, ◌++◌, Bytes, codes, bytes_eq, is_empty,
  if◌then◌else◌,
}
use minichat.Base.Int.{ℤ, pos}
use minichat.Base.Assoc.{Assoc, insert, lookup}
use minichat.Const.ErrorCodes
use minichat.Gate.Url.{getlines}
use minichat.Chat.World.{AddFriendReq, TextChatData, TextChatMsgReq}

pub record ChatConPool : Type 0 where
  pub connections : List ℕ
  pub stop : Bool

-- `GetConnection`: it waits while the pool is empty and not stopped.
pub data Taken : Type 0 where
  waits : Taken
  null : Taken
  taken : ℕ → ChatConPool → Taken

unfoldable pub take_front : ChatConPool → List ℕ → Taken
take_front p [] = waits
take_front p (stub ∷ rest) = taken stub (record p { connections = rest })

unfoldable pub get_connection : ChatConPool → Taken
unfolding take_front
get_connection p = if p.stop then null else take_front p p.connections

unfoldable pub return_connection : ChatConPool → ℕ → ChatConPool
return_connection p stub =
    if p.stop then p else record p { connections = p.connections ++ stub ∷ [] }

unfoldable pub close : ChatConPool → ChatConPool
close p = record p { stop = true }

abbrev pub Pools : Type 0
Pools = Assoc Bytes ChatConPool

-- The peers of the configuration; `stubs` are those that the constructor of a pool makes.
unfoldable pub add_peers :
    (Bytes → Bytes → Bytes) → (Bytes → Bytes → List ℕ) → List Bytes → Pools → Pools
add_peers cfg stubs [] pools = pools
add_peers cfg stubs (word ∷ words) pools =
    if is_empty (cfg word (codes "Name"))
    then add_peers cfg stubs words pools
    else add_peers cfg stubs words (
        insert (cfg word (codes "Name"))
          (record {
            connections = stubs (cfg word (codes "Host")) (cfg word (codes "Port"));
            stop = false;
          })
          pools)

unfoldable pub chat_grpc_client : (Bytes → Bytes → Bytes) → (Bytes → Bytes → List ℕ) → Pools
chat_grpc_client cfg stubs =
    add_peers cfg stubs (getlines b',' (cfg (codes "PeerServer") (codes "Servers"))) []

-- How a call on a pool ends: it waits for a stub, it calls through a null stub (the pool is closed),
-- or it returns.
pub data Outcome (S R : Type 0) : Type 0 where
  blocked : Outcome S R
  crashed : Outcome S R
  returns : R → S → Outcome S R

-- GetConnection, the call, and ReturnConnection by the Defer.
abbrev pub with_stub : {R : Type 0} → (ℕ → R) → Taken → Outcome ChatConPool R
with_stub call waits = blocked
with_stub call null = crashed
with_stub call (taken stub p) = returns (call stub) (return_connection p stub)

abbrev pub stored : {R : Type 0} → Bytes → Pools → Outcome ChatConPool R → Outcome Pools R
stored server pools blocked = blocked
stored server pools crashed = crashed
stored server pools (returns r p) = returns r (insert server p pools)

-- A call to a peer, by its name in `_pools`; `missing` is the reply when there is none.
abbrev pub found_peer :
    {R : Type 0} → Pools → Bytes → R → (ℕ → R) → Option ChatConPool → Outcome Pools R
found_peer pools server missing call none = returns missing pools
found_peer pools server missing call (some p) =
    stored server pools (with_stub call (get_connection p))

unfoldable pub call_peer : {R : Type 0} → Pools → Bytes → R → (ℕ → R) → Outcome Pools R
call_peer pools server missing call = found_peer pools server missing call (lookup server pools)

-- The replies of message.proto.
pub record AddFriendRsp : Type 0 where
  pub error : ℤ
  pub applyuid : ℤ
  pub touid : ℤ

pub record AuthFriendRsp : Type 0 where
  pub error : ℤ
  pub fromuid : ℤ
  pub touid : ℤ

pub record AuthFriendReq : Type 0 where
  pub fromuid : ℤ
  pub touid : ℤ

pub record TextChatMsgRsp : Type 0 where
  pub error : ℤ
  pub fromuid : ℤ
  pub touid : ℤ
  pub textmsgs : List TextChatData

-- A reply as it is made, with `set_error(Success)` in the last two.
abbrev pub new_add_rsp : AddFriendRsp
new_add_rsp = record { error = pos 0; applyuid = pos 0; touid = pos 0 }

abbrev pub new_auth_rsp : AuthFriendRsp
new_auth_rsp = record { error = pos ErrorCodes.success; fromuid = pos 0; touid = pos 0 }

abbrev pub new_text_rsp : TextChatMsgRsp
new_text_rsp = record {
  error = pos ErrorCodes.success;
  fromuid = pos 0;
  touid = pos 0;
  textmsgs = [];
}

-- A remote call on a stub: its status, and the reply that it makes of the given one.
abbrev pub Rpc : Type 0 → Type 0 → Type 0
Rpc Req Rsp = ℕ → Req → Rsp → Bool × Rsp

-- The first Defer changes the reply after `return rsp`. The caller sees the changes if the compiler
-- builds the reply in the caller's place, which it may or may not do.
abbrev pub leaving : {R : Type 0} → Bool → (R → R) → R → R
leaving elided defer rsp = if elided then defer rsp else rsp

-- `if (!status.ok()) rsp.set_error(RPCFailed)`
abbrev pub checked : {R : Type 0} → (R → R) → Bool × R → R
checked fail (ok, rsp) = if ok then rsp else fail rsp

abbrev pub add_failed : AddFriendRsp → AddFriendRsp
add_failed rsp = record rsp { error = pos ErrorCodes.rpc_failed }

abbrev pub add_defer : AddFriendReq → AddFriendRsp → AddFriendRsp
add_defer req rsp = record {
  error = pos ErrorCodes.success;
  applyuid = req.applyuid;
  touid = req.touid;
}

abbrev pub auth_failed : AuthFriendRsp → AuthFriendRsp
auth_failed rsp = record rsp { error = pos ErrorCodes.rpc_failed }

abbrev pub auth_defer : AuthFriendReq → AuthFriendRsp → AuthFriendRsp
auth_defer req rsp = record rsp { fromuid = req.fromuid; touid = req.touid }

abbrev pub text_failed : TextChatMsgRsp → TextChatMsgRsp
text_failed rsp = record rsp { error = pos ErrorCodes.rpc_failed }

abbrev pub text_defer : TextChatMsgReq → TextChatMsgRsp → TextChatMsgRsp
text_defer req rsp = record rsp {
  fromuid = req.fromuid;
  touid = req.touid;
  textmsgs = rsp.textmsgs ++ req.textmsgs;
}

module _ (elided : Bool) where
  unfoldable pub notify_add_friend :
      Rpc AddFriendReq AddFriendRsp → Pools → Bytes → AddFriendReq → Outcome Pools AddFriendRsp
  notify_add_friend rpc pools server req =
      let rsp : AddFriendRsp = new_add_rsp in
      call_peer pools server (leaving elided (add_defer req) (add_failed rsp))
        (λ stub. leaving elided (add_defer req) (checked add_failed (rpc stub req rsp)))

  unfoldable pub notify_auth_friend :
      Rpc AuthFriendReq AuthFriendRsp → Pools → Bytes → AuthFriendReq → Outcome Pools AuthFriendRsp
  notify_auth_friend rpc pools server req =
      let rsp : AuthFriendRsp = new_auth_rsp in
      call_peer pools server (leaving elided (auth_defer req) (auth_failed rsp))
        (λ stub. leaving elided (auth_defer req) (checked auth_failed (rpc stub req rsp)))

  unfoldable pub notify_text_chat_msg :
      Rpc TextChatMsgReq TextChatMsgRsp
      → Pools
      → Bytes
      → TextChatMsgReq
      → Outcome Pools TextChatMsgRsp
  notify_text_chat_msg rpc pools server req =
      let rsp : TextChatMsgRsp = new_text_rsp in
      call_peer pools server (leaving elided (text_defer req) (text_failed rsp))
        (λ stub. leaving elided (text_defer req) (checked text_failed (rpc stub req rsp)))

-- The clients with one pool: GetChatServer and Login of the status server, and GetvarifyCode.
-- `fail` is `set_error(RPCFailed)`; nothing changes the reply after the return.
unfoldable pub call_server :
    {Req Rsp : Type 0}
    → (Rsp → Rsp)
    → Rpc Req Rsp
    → Rsp
    → ChatConPool
    → Req
    → Outcome ChatConPool Rsp
call_server fail rpc rsp p req =
    with_stub (λ stub. checked fail (rpc stub req rsp)) (get_connection p)
