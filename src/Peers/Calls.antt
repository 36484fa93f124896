-- ===== src/Peers/Calls.antt =====
-- What a notification leaves of the pools, and what error its reply has.
use minichat.Base.{
  ℕ, Bool, true, false, Option, none, some, List, [], ◌∷◌, ◌++◌, ◌≡◌, refl, Bytes, bytes_eq, ◌==◌,
  Bool-cases, Option-cases, inl, inr, arith, if◌then◌else◌,
}
use minichat.Base.Int.{pos}
use minichat.Base.Assoc.{lookup, lookup-insert}
use minichat.Const.ErrorCodes
use minichat.Chat.World.{AddFriendReq, TextChatMsgReq}
use minichat.Peers.{
  ChatConPool, null, take_front, get_connection, return_connection, Pools, Outcome, blocked,
  crashed, returns, with_stub, stored, call_peer, AddFriendRsp, AuthFriendRsp, AuthFriendReq,
  TextChatMsgRsp, new_add_rsp, new_auth_rsp, new_text_rsp, Rpc, leaving, checked, add_failed,
  auth_failed, auth_defer, text_failed, text_defer, notify_add_friend, notify_auth_friend,
  notify_text_chat_msg,
}

get_connection-closed : (p : ChatConPool) → p.stop ≡ true → get_connection p ≡ null
unfolding get_connection
get_connection-closed p s = rw s

get_connection-open :
    (p : ChatConPool) → p.stop ≡ false → get_connection p ≡ take_front p p.connections
unfolding get_connection
get_connection-open p s = ground (arith, s)

return_connection-open :
    (p : ChatConPool) (rest : List ℕ) (stub : ℕ)
    → p.stop ≡ false
    → return_connection (record p { connections = rest }) stub
      ≡ record p { connections = rest ++ stub ∷ [] }
unfolding return_connection
return_connection-open p rest stub s = ground (arith, s)

module _ (pools : Pools) (server : Bytes) {R : Type 0} (Reply : Option ℕ → R → Type 0) where
  -- The ends of a call to a peer. `Reply` is asked of the reply, with the stub that was used.
  pub data Called : Outcome Pools R → Type 0 where
    unknown : (r : R) → lookup server pools ≡ none → Reply none r → Called (returns r pools)
    waiting :
        (p : ChatConPool)
        → lookup server pools ≡ some p
        → p.stop ≡ false
        → p.connections ≡ []
        → Called blocked
    closed : (p : ChatConPool) → lookup server pools ≡ some p → p.stop ≡ true → Called crashed
    served :
        (r : R) (p : ChatConPool) (stub : ℕ) (rest : List ℕ) (pools' : Pools)
        → lookup server pools ≡ some p
        → p.stop ≡ false
        → p.connections ≡ stub ∷ rest
        → Reply (some stub) r
        → ((name : Bytes)
            → lookup name pools' ≡ (
                if server == name
                then some (record p { connections = rest ++ stub ∷ [] })
                else lookup name pools))
        → Called (returns r pools')

  module _ (missing : R) (call : ℕ → R)
      (call-Reply : (stub : ℕ) → Reply (some stub) (call stub)) where
    open_pool :
        (p : ChatConPool) (stubs : List ℕ)
        → lookup server pools ≡ some p
        → p.stop ≡ false
        → p.connections ≡ stubs
        → Called (stored server pools (with_stub call (take_front p stubs)))
    unfolding take_front
    open_pool p [] e s c = waiting p e s c
    open_pool p (stub ∷ rest) e s c = rw (return_connection-open p rest stub s) (
        served (call stub) p stub rest _ e s c (call-Reply stub)
          (λ name. lookup-insert server name (record p { connections = rest ++ stub ∷ [] }) pools))

    pub call_peer-Called : Reply none missing → Called (call_peer pools server missing call)
    unfolding call_peer
    call_peer-Called m = elim (Option-cases (lookup server pools)) [
      | inl e ↦ rw e (unknown missing e m)
      | inr (p, e) ↦ elim (Bool-cases p.stop) [
        | inl s ↦ rw (e, get_connection-closed p s) (closed p e s)
        | inr s ↦ rw (e, get_connection-open p s) (open_pool p p.connections e s refl)
      ]
    ]

-- The error that the caller of a notification finds, and the ids of its request.
abbrev pub TextReply :
    Rpc TextChatMsgReq TextChatMsgRsp → TextChatMsgReq → Option ℕ → TextChatMsgRsp → Type 0
TextReply rpc req none r = r.error ≡ pos ErrorCodes.rpc_failed
TextReply rpc req (some stub) r =
    let (ok, rsp) = rpc stub req new_text_rsp in
    r.error ≡ (if ok then rsp.error else pos ErrorCodes.rpc_failed)

abbrev pub AuthReply :
    Rpc AuthFriendReq AuthFriendRsp → AuthFriendReq → Option ℕ → AuthFriendRsp → Type 0
AuthReply rpc req none r = r.error ≡ pos ErrorCodes.rpc_failed
AuthReply rpc req (some stub) r =
    let (ok, rsp) = rpc stub req new_auth_rsp in
    r.error ≡ (if ok then rsp.error else pos ErrorCodes.rpc_failed)

abbrev pub AddReply :
    Bool → Rpc AddFriendReq AddFriendRsp → AddFriendReq → Option ℕ → AddFriendRsp → Type 0
AddReply true rpc req used r = r.error ≡ pos ErrorCodes.success
AddReply false rpc req none r = r.error ≡ pos ErrorCodes.rpc_failed
AddReply false rpc req (some stub) r =
    let (ok, rsp) = rpc stub req new_add_rsp in
    r.error ≡ (if ok then rsp.error else pos ErrorCodes.rpc_failed)

text-left :
    (elided : Bool) (req : TextChatMsgReq) (answer : Bool × TextChatMsgRsp)
    → (leaving elided (text_defer req) (checked text_failed answer)).error
      ≡ (if answer.0 then answer.1.error else pos ErrorCodes.rpc_failed)
text-left true req (true, rsp) = refl
text-left true req (false, rsp) = refl
text-left false req (true, rsp) = refl
text-left false req (false, rsp) = refl

auth-left :
    (elided : Bool) (req : AuthFriendReq) (answer : Bool × AuthFriendRsp)
    → (leaving elided (auth_defer req) (checked auth_failed answer)).error
      ≡ (if answer.0 then answer.1.error else pos ErrorCodes.rpc_failed)
auth-left true req (true, rsp) = refl
auth-left true req (false, rsp) = refl
auth-left false req (true, rsp) = refl
auth-left false req (false, rsp) = refl

add-left :
    (answer : Bool × AddFriendRsp)
    → (checked add_failed answer).error
      ≡ (if answer.0 then answer.1.error else pos ErrorCodes.rpc_failed)
add-left (true, rsp) = refl
add-left (false, rsp) = refl

text-missing :
    (elided : Bool) (req : TextChatMsgReq)
    → (leaving elided (text_defer req) (text_failed new_text_rsp)).error ≡ pos ErrorCodes.rpc_failed
text-missing true req = refl
text-missing false req = refl

auth-missing :
    (elided : Bool) (req : AuthFriendReq)
    → (leaving elided (auth_defer req) (auth_failed new_auth_rsp)).error ≡ pos ErrorCodes.rpc_failed
auth-missing true req = refl
auth-missing false req = refl

add_friend-Called :
    (elided : Bool) (rpc : Rpc AddFriendReq AddFriendRsp) (pools : Pools) (server : Bytes)
    (req : AddFriendReq)
    → Called pools server (AddReply elided rpc req) (notify_add_friend elided rpc pools server req)
unfolding notify_add_friend
add_friend-Called true rpc pools server req =
    call_peer-Called pools server (AddReply true rpc req) _ _ (λ stub. refl) refl
add_friend-Called false rpc pools server req =
    call_peer-Called pools server (AddReply false rpc req) _ _
      (λ stub. add-left (rpc stub req new_add_rsp)) refl

-- A notification of a peer that is not configured answers at once and touches no pool. Otherwise it
-- waits while the peer's open pool is empty, it calls through a null stub when that pool is closed,
-- and else it uses the first stub and puts it back at the end of the pool; no other pool changes. The
-- reply of NotifyTextChatMsg and NotifyAuthFriend has the error RPCFailed when the peer is not
-- configured or the status is not OK, and else the peer's error. So has NotifyAddFriend's reply, unless
-- the reply is built in the caller's place: then its error is Success whatever happened.
pub notifications-Called :
    (elided : Bool) (pools : Pools) (server : Bytes) (text : Rpc TextChatMsgReq TextChatMsgRsp)
    (text_req : TextChatMsgReq) (auth : Rpc AuthFriendReq AuthFriendRsp) (auth_req : AuthFriendReq)
    (add : Rpc AddFriendReq AddFriendRsp) (add_req : AddFriendReq)
    → Called pools server
        (TextReply text text_req)
        (notify_text_chat_msg elided text pools server text_req)
      × Called pools server
          (AuthReply auth auth_req)
          (notify_auth_friend elided auth pools server auth_req)
      × Called pools server
          (AddReply elided add add_req)
          (notify_add_friend elided add pools server add_req)
unfolding notify_text_chat_msg notify_auth_friend
notifications-Called elided pools server text text_req auth auth_req add add_req = (
  call_peer-Called pools server (TextReply text text_req) _ _
      (λ stub. text-left elided text_req (text stub text_req new_text_rsp))
      (text-missing elided text_req),
  call_peer-Called pools server (AuthReply auth auth_req) _ _
      (λ stub. auth-left elided auth_req (auth stub auth_req new_auth_rsp))
      (auth-missing elided auth_req),
  add_friend-Called elided add pools server add_req,
)
