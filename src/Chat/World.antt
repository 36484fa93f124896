-- ===== src/Chat/World.antt =====
-- The state that the handlers share, and the calls that leave the program.
-- Redis, MySQL, the peers' gRPC services and the sockets are reached by calls. A call is written to
-- `calls`, newest first, and its answer may depend on all calls before it: an `Env` is any such
-- service. `Session.Send` and `MsgPersistMgr::PushMessages` return nothing, so they are calls too;
-- minichat.Session and minichat.Persist say what they do.
-- A record of the data stands for a struct of ChatSever/UserData.h or a message of message.proto.
use minichat.Base.{ℕ, Bool, Option, none, some, List, [], ◌∷◌, Bytes}
use minichat.Base.Int.{ℤ}
use minichat.Base.Assoc.{Assoc}
use minichat.Persist.{TextItem}
use minichat.UserMgr.{UserMgr, SessionPtr}

-- UserData.h
pub record UserInfo : Type 0 where
  pub name : Bytes
  pub pwd : Bytes
  pub uid : ℤ
  pub email : Bytes
  pub nick : Bytes
  pub desc : Bytes
  pub sex : ℤ
  pub icon : Bytes

-- A row of the friend list, with the remark (`back`) of the user.
pub record FriendInfo : Type 0 where
  pub info : UserInfo
  pub back : Bytes

pub record ApplyInfo : Type 0 where
  pub uid : ℤ
  pub name : Bytes
  pub desc : Bytes
  pub icon : Bytes
  pub nick : Bytes
  pub sex : ℤ
  pub status : ℤ

pub record GroupInfo : Type 0 where
  pub group_id : ℤ
  pub name : Bytes
  pub owner_uid : ℤ
  pub member_count : ℤ

-- ChatMsgInfo as GetChatMsgList fills it.
pub record StoredMsg : Type 0 where
  pub msg_id : ℤ
  pub from_uid : ℤ
  pub to_uid : ℤ
  pub unique_id : Bytes
  pub content : Bytes
  pub status : ℤ
  pub create_time : Bytes

-- message.proto: TextChatData, and the requests of ChatService.
pub record TextChatData : Type 0 where
  pub msgid : Bytes
  pub msgcontent : Bytes

pub record TextChatMsgReq : Type 0 where
  pub fromuid : ℤ
  pub touid : ℤ
  pub textmsgs : List TextChatData

pub record AddFriendReq : Type 0 where
  pub applyuid : ℤ
  pub touid : ℤ
  pub name : Bytes
  pub desc : Bytes
  pub icon : Bytes
  pub nick : Bytes
  pub sex : ℤ

pub data Call : Type 0 where
  redis_get : Bytes → Call
  redis_set : Bytes → Bytes → Call
  redis_auth : Bytes → Call
  redis_lpush : Bytes → Bytes → Call
  redis_rpop : Bytes → Call
  redis_hdel : Bytes → Bytes → Call
  redis_exists : Bytes → Call
  redis_del : Bytes → Call
  redis_rpush : Bytes → Bytes → Call
  redis_lpop : Bytes → Call
  redis_sadd : Bytes → Bytes → Call
  redis_srem : Bytes → Bytes → Call
  redis_smembers : Bytes → Call
  redis_hget : Bytes → Bytes → Call
  redis_hset : Bytes → Bytes → Bytes → Call
  mysql_add_friend_apply : ℤ → ℤ → Call
  mysql_auth_friend_apply : ℤ → ℤ → Call
  mysql_add_friend : ℤ → ℤ → Bytes → Call
  mysql_get_user : ℤ → Call
  mysql_get_user_by_name : Bytes → Call
  mysql_get_apply_list : ℤ → Call
  mysql_get_friend_list : ℤ → Call
  mysql_get_chat_msg_list : Bytes → ℤ → ℤ → Call
  mysql_get_user_groups : ℤ → Call
  mysql_create_group : Bytes → ℤ → List ℤ → Call
  mysql_get_group_members : ℤ → Call
  mysql_is_group_member : ℤ → ℤ → Call
  grpc_add_friend : Bytes → AddFriendReq → Call
  grpc_auth_friend : Bytes → ℤ → ℤ → Call
  grpc_text_msg : Bytes → TextChatMsgReq → Call
  send : SessionPtr → Bytes → ℕ → Call
  persist : Bytes → ℤ → ℤ → List TextItem → Call

-- What a call of the Redis client does: it returns an answer, or throws `sw::redis::Error`.
pub data Reply (A : Type 0) : Type 0 where
  answer : A → Reply A
  failure : Reply A

-- The answers. Redis gives a `Reply`; of MySQL `none` is a failure or a missing value, and a Boolean
-- a success.
pub record Env : Type 0 where
  pub get : List Call → Bytes → Reply (Option Bytes)
  pub set : List Call → Bytes → Bytes → Reply Bool
  pub auth : List Call → Bytes → Reply (Unit {0})
  pub lpush : List Call → Bytes → Bytes → Reply ℕ
  pub lpop : List Call → Bytes → Reply (Option Bytes)
  pub rpush : List Call → Bytes → Bytes → Reply ℕ
  pub rpop : List Call → Bytes → Reply (Option Bytes)
  pub sadd : List Call → Bytes → Bytes → Reply ℕ
  pub srem : List Call → Bytes → Bytes → Reply ℕ
  pub smembers : List Call → Bytes → Reply (List Bytes)
  pub hset : List Call → Bytes → Bytes → Bytes → Reply ℕ
  pub hget : List Call → Bytes → Bytes → Reply (Option Bytes)
  pub hdel : List Call → Bytes → Bytes → Reply ℕ
  pub del : List Call → Bytes → Reply ℕ
  pub exists : List Call → Bytes → Reply ℕ
  pub get_user : List Call → ℤ → Option UserInfo
  pub get_user_by_name : List Call → Bytes → Option UserInfo
  pub get_apply_list : List Call → ℤ → Bool × List ApplyInfo
  pub get_friend_list : List Call → ℤ → Bool × List FriendInfo
  pub get_chat_msg_list : List Call → Bytes → ℤ → ℤ → Option (List StoredMsg)
  pub get_user_groups : List Call → ℤ → Option (List GroupInfo)
  pub create_group : List Call → Bytes → ℤ → List ℤ → ℤ
  pub get_group_members : List Call → ℤ → Bool × List ℤ
  pub is_group_member : List Call → ℤ → ℤ → Bool
  -- the error code of the reply, or `none` when the status is not OK
  pub text_msg : List Call → Bytes → TextChatMsgReq → Option ℕ
  -- the keys of ChatGrpcClient's `_pools`
  pub peers : List Bytes
  -- ConfigMgr's SelfServer.Name
  pub self_name : Bytes

-- `sessions` is CServer's `_sessions`; the user id and the uuid stand in the session objects.
pub record World : Type 0 where
  pub calls : List Call
  pub users : UserMgr
  pub sessions : Assoc Bytes SessionPtr
  pub user_ids : SessionPtr → ℤ
  pub uuids : SessionPtr → Bytes

-- A piece of a handler. `none` is an exception that nothing catches, which ends the process, or
-- undefined behaviour.
abbrev pub M : Type 0 → Type 0
M A = World → Option (A × World)

-- What follows a piece that has returned.
abbrev pub followed : {A B : Type 0} → Option (A × World) → (A → M B) → Option (B × World)
followed none f = none
followed (some (a, w)) f = f a w

infixl 5 ◌>>=◌ ◌>>◌
abbrev pub ◌>>=◌ : {A B : Type 0} → M A → (A → M B) → M B
◌>>=◌ m f w = followed (m w) f

abbrev pub ◌>>◌ : {B : Type 0} → M (Unit {0}) → M B → M B
m >> k = m >>= λ _. k

abbrev pub pure : {A : Type 0} → A → M A
pure a w = some (a, w)

abbrev pub or_throw : {A : Type 0} → Option A → M A
or_throw none w = none
or_throw (some a) w = some (a, w)

abbrev pub call : Call → M (Unit {0})
call c w = some (tt, record w { calls = c ∷ w.calls })

-- A call with its answer.
abbrev pub ask : {A : Type 0} → Call → (List Call → A) → M A
ask c reply w = some (reply w.calls, record w { calls = c ∷ w.calls })

abbrev pub ask_users : {A : Type 0} → (UserMgr → A) → M A
ask_users f w = some (f w.users, w)

-- A call whose result the caller drops.
abbrev pub ignore : {A : Type 0} → M A → M (Unit {0})
ignore m = m >>= λ _. pure tt

-- A loop over a vector.
unfoldable pub each : {A : Type 0} → List A → (A → M (Unit {0})) → M (Unit {0})
each [] body w = some (tt, w)
each (x ∷ xs) body w = followed (body x w) (λ _. each xs body)

-- A loop that updates a flag.
unfoldable pub each_flag : {A : Type 0} → Bool → List A → (Bool → A → M Bool) → M Bool
each_flag flag [] body w = some (flag, w)
each_flag flag (x ∷ xs) body w = followed (body flag x w) (λ next. each_flag next xs body)
