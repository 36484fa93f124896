-- ===== src/Examples/Transactions.antt =====
-- A connection on which every statement succeeds.
use minichat.Base.{false, some, [], ◌∷◌, codes}
use minichat.Base.Int.{pos, negsuc}
use minichat.Persist.{ChatMsgInfo}
use minichat.MysqlDao.{Connection, add_friend, save_chat_msgs, create_group}
use minichat.MysqlDao.Rules.{Transaction}
use minichat.MysqlDao.Atomic.{
  Befriended, Saved, Founded, add_friend-Transaction, save_chat_msgs-Transaction,
  create_group-Transaction,
}

abbrev willing : Connection
willing = record { result = λ log s. some (pos 1); auto_commit = λ log. some false }

abbrev message : ChatMsgInfo
message = record {
  session_id = codes "7_8";
  from_uid = pos 7;
  to_uid = pos 8;
  unique_id = codes "m1";
  content = codes "hi";
}

add_friend-Transaction_example :
    Transaction willing [] false
      (Befriended willing [] (pos 7) (pos 8) (codes "b"))
      (λ connected. add_friend willing connected (pos 7) (pos 8) (codes "b"))
add_friend-Transaction_example = add_friend-Transaction willing [] (pos 7) (pos 8) (codes "b")

save_chat_msgs-Transaction_example :
    Transaction willing [] false
      (Saved willing [] (message ∷ []))
      (λ connected. save_chat_msgs willing connected (message ∷ []))
save_chat_msgs-Transaction_example = save_chat_msgs-Transaction willing [] message []

create_group-Transaction_example :
    Transaction willing []
      (negsuc 0)
      (Founded willing [] (codes "g") (pos 7) (pos 8 ∷ []))
      (λ connected. create_group willing connected (codes "g") (pos 7) (pos 8 ∷ []))
create_group-Transaction_example =
    create_group-Transaction willing [] (codes "g") (pos 7) (pos 8 ∷ [])
