-- ===== src/Dao/Operations.antt =====
-- The operations of the two MysqlDao classes that open no transaction as one interface: those of
-- ChatSever/MysqlDao.h, and those of GateServer/MysqlDao.h that differ. The four that open one are
-- not among them: AddFriend, SaveChatMsgs and CreateGroup are in minichat.MysqlDao, and
-- RegUserTransaction is in minichat.Dao.Registration.
use minichat.Base.{Bool, true, false, Option, none, List, [], Bytes}
use minichat.Base.Int.{ℤ, pos, negsuc}
use minichat.Chat.World.{UserInfo, FriendInfo, ApplyInfo, GroupInfo, StoredMsg}
use minichat.Dao.{Database, Dao}
use minichat.Dao.Users
use minichat.Dao.Reports
use minichat.Dao.Gate

pub data Operation : Type 0 where
  reg_user : Bytes → Bytes → Bytes → Operation
  check_email : Bytes → Bytes → Operation
  update_pwd : Bytes → Bytes → Operation
  check_pwd : Bytes → Bytes → Operation
  add_friend_apply : ℤ → ℤ → Operation
  auth_friend_apply : ℤ → ℤ → Operation
  get_user : ℤ → Operation
  get_user_named : Bytes → Operation
  get_apply_list : ℤ → ℤ → ℤ → Operation
  get_friend_list : ℤ → Operation
  get_chat_msg_list : Bytes → ℤ → ℤ → Operation
  get_user_groups : ℤ → Operation
  get_group_members : ℤ → Operation
  is_group_member : ℤ → ℤ → Operation
  gate_check_email : Bytes → Bytes → Operation
  gate_check_pwd : Bytes → Bytes → Operation
  test_procedure : Bytes → Operation

-- Whether the operation is one of the chat server's.
abbrev pub of_chat_server : Operation → Bool
of_chat_server (gate_check_email name email) = false
of_chat_server (gate_check_pwd email pwd) = false
of_chat_server (test_procedure email) = false
of_chat_server op = true

-- What an operation returns, with what it fills.
abbrev pub Answer : Operation → Type 0
Answer (reg_user name email pwd) = ℤ
Answer (check_email name email) = Bool
Answer (update_pwd name newpwd) = Bool
Answer (check_pwd name pwd) = Option Users.Account
Answer (add_friend_apply from to) = Bool
Answer (auth_friend_apply from to) = Bool
Answer (get_user uid) = Option UserInfo
Answer (get_user_named name) = Option UserInfo
Answer (get_apply_list touid begin limit) = Bool × List ApplyInfo
Answer (get_friend_list self_id) = Bool × List FriendInfo
Answer (get_chat_msg_list session_id last_id limit) = Bool × List StoredMsg
Answer (get_user_groups uid) = Bool × List GroupInfo
Answer (get_group_members group_id) = Bool × List ℤ
Answer (is_group_member group_id uid) = Bool
Answer (gate_check_email name email) = Bool
Answer (gate_check_pwd email pwd) = Option Users.Account
Answer (test_procedure email) = Option (ℤ × Bytes)

abbrev pub run : Database → (op : Operation) → Dao (Answer op)
run db (reg_user name email pwd) = Users.reg_user db name email pwd
run db (check_email name email) = Users.check_email db name email
run db (update_pwd name newpwd) = Users.update_pwd db name newpwd
run db (check_pwd name pwd) = Users.check_pwd db name pwd
run db (add_friend_apply from to) = Users.add_friend_apply db from to
run db (auth_friend_apply from to) = Users.auth_friend_apply db from to
run db (get_user uid) = Users.get_user db uid
run db (get_user_named name) = Users.get_user_named db name
run db (get_apply_list touid begin limit) = Reports.get_apply_list db touid begin limit
run db (get_friend_list self_id) = Reports.get_friend_list db self_id
run db (get_chat_msg_list session_id last_id limit) =
    Reports.get_chat_msg_list db session_id last_id limit
run db (get_user_groups uid) = Reports.get_user_groups db uid
run db (get_group_members group_id) = Reports.get_group_members db group_id
run db (is_group_member group_id uid) = Reports.is_group_member db group_id uid
run db (gate_check_email name email) = Gate.check_email db name email
run db (gate_check_pwd email pwd) = Gate.check_pwd db email pwd
run db (test_procedure email) = Gate.test_procedure db email

-- What an operation gives without a connection.
abbrev pub unavailable : (op : Operation) → Answer op
unavailable (reg_user name email pwd) = pos 0
unavailable (check_email name email) = false
unavailable (update_pwd name newpwd) = false
unavailable (check_pwd name pwd) = none
unavailable (add_friend_apply from to) = false
unavailable (auth_friend_apply from to) = false
unavailable (get_user uid) = none
unavailable (get_user_named name) = none
unavailable (get_apply_list touid begin limit) = (false, [])
unavailable (get_friend_list self_id) = (false, [])
unavailable (get_chat_msg_list session_id last_id limit) = (false, [])
unavailable (get_user_groups uid) = (false, [])
unavailable (get_group_members group_id) = (false, [])
unavailable (is_group_member group_id uid) = false
unavailable (gate_check_email name email) = false
unavailable (gate_check_pwd email pwd) = none
unavailable (test_procedure email) = none

-- What it gives when its first statement throws.
abbrev pub failed : (op : Operation) → Answer op
failed (reg_user name email pwd) = negsuc 0
failed op = unavailable op
