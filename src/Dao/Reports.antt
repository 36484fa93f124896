-- ===== src/Dao/Reports.antt =====
-- ChatSever/MysqlDao.cpp: the operations that fill a vector, and IsGroupMember.
-- Their result is the vector with the returned Boolean: after an exception in the loop the vector
-- keeps what was pushed.
use mathlib.Core.List.{reverse}
use minichat.Base.{
  ℕ, Bool, true, false, Option, none, some, List, [], ◌∷◌, ◌++◌, Bytes, if◌then◌else◌,
}
use minichat.Base.Int.{ℤ, is_positive}
use minichat.Chat.World.{UserInfo, FriendInfo, ApplyInfo, GroupInfo, StoredMsg}
use minichat.MysqlDao.{page_limit}
use minichat.Dao.{
  int, text, Query, Row, ResultSet, finished, broken, row, Event, Database, Dao, ◌>>=◌, done,
  or_throw, next, select, leased,
}
use minichat.Dao.Users.{get_user}

-- A row read, pushed, and the rest of the loop; or the exception, which ends it.
abbrev pub push_row :
    {A : Type 0}
    → (List A → Dao (Bool × List A))
    → List A
    → Option (List A) × List Event
    → Option (Bool × List A) × List Event
push_row rest pushed (none, log) = (some (false, pushed), log)
push_row rest pushed (some items, log) = rest (pushed ++ items) log

-- `while (res->next())`, where `read` gives what the body pushes.
unfoldable pub read_rows :
    {A : Type 0} → (Row → Dao (List A)) → ResultSet → List A → Dao (Bool × List A)
read_rows read (finished at_end) pushed log = (some (true, pushed), log)
read_rows read broken pushed log = (some (false, pushed), log)
read_rows read (row r rest) pushed log = push_row (read_rows read rest) pushed (read r log)

abbrev pub apply_row : Row → Dao (List ApplyInfo)
apply_row r = do
  name ← or_throw (r.get_string "name")
  uid ← or_throw (r.get_int "from_uid")
  status ← or_throw (r.get_int "status")
  nick ← or_throw (r.get_string "nick")
  sex ← or_throw (r.get_int "sex")
  done (
      record {
        uid = uid;
        name = name;
        desc = [];
        icon = [];
        nick = nick;
        sex = sex;
        status = status;
      }
      ∷ [])

abbrev pub message_row : Row → Dao (List StoredMsg)
message_row r = do
  msg_id ← or_throw (r.get_int64 "msg_id")
  -- Read, but no caller uses it.
  session_id ← or_throw (r.get_string "session_id")
  from_uid ← or_throw (r.get_int "from_uid")
  to_uid ← or_throw (r.get_int "to_uid")
  unique_id ← or_throw (r.get_string "unique_id")
  content ← or_throw (r.get_string "content")
  status ← or_throw (r.get_int "status")
  create_time ← or_throw (r.get_string "create_time")
  done (
      record {
        msg_id = msg_id;
        from_uid = from_uid;
        to_uid = to_uid;
        unique_id = unique_id;
        content = content;
        status = status;
        create_time = create_time;
      }
      ∷ [])

abbrev pub group_row : Row → Dao (List GroupInfo)
group_row r = do
  group_id ← or_throw (r.get_int64 "group_id")
  name ← or_throw (r.get_string "name")
  owner_uid ← or_throw (r.get_int "owner_uid")
  member_count ← or_throw (r.get_int "member_count")
  done (
      record {
        group_id = group_id;
        name = name;
        owner_uid = owner_uid;
        member_count = member_count;
      }
      ∷ [])

abbrev pub member_row : Row → Dao (List ℤ)
member_row r = or_throw (r.get_int "uid") >>= λ uid. done (uid ∷ [])

-- The vector, reversed after a loop that met no exception.
abbrev pub ascending : {A : Type 0} → Bool × List A → Bool × List A
ascending (true, rows) = (true, reverse rows)
ascending (false, rows) = (false, rows)

-- A page of the history: the condition on `msg_id` only with a cursor.
abbrev pub history_query : Bytes → ℤ → ℤ → Query
history_query session_id last_id limit =
    if is_positive last_id
    then record {
      sql =
          "SELECT msg_id, session_id, from_uid, to_uid, unique_id, content, status, create_time FROM chat_message WHERE session_id = ? AND msg_id < ? ORDER BY msg_id DESC LIMIT ?";
      params = text session_id ∷ int last_id ∷ int limit ∷ [];
    }
    else record {
      sql =
          "SELECT msg_id, session_id, from_uid, to_uid, unique_id, content, status, create_time FROM chat_message WHERE session_id = ? ORDER BY msg_id DESC LIMIT ?";
      params = text session_id ∷ int limit ∷ [];
    }

abbrev pub present : Option (Row × ResultSet) → Bool
present none = false
present (some found) = true

-- A friend without a user is left out, and `back` is overwritten by the name.
abbrev pub with_back : Option UserInfo → List FriendInfo
with_back none = []
with_back (some user) = record { info = user; back = user.name } ∷ []

module _ (db : Database) where
  -- The query, and the loop over its rows.
  unfoldable pub fill : {A : Type 0} → Query → (Row → Dao (List A)) → ℕ → Dao (Bool × List A)
  fill q read con = do res ← select db con q; read_rows read res []

  unfoldable pub get_apply_list : ℤ → ℤ → ℤ → Dao (Bool × List ApplyInfo)
  get_apply_list touid begin limit =
      leased db (false, [])
        (fill
          (record {
            sql =
                "select apply.from_uid, apply.status, user.name, user.nick, user.sex from friend_apply as apply join user on apply.from_uid = user.uid where apply.to_uid = ? and apply.id > ? order by apply.id ASC LIMIT ? ";
            params = int touid ∷ int begin ∷ int limit ∷ [];
          })
          apply_row)

  -- GetUser takes a second connection while this one is held.
  abbrev pub friend_row : Row → Dao (List FriendInfo)
  friend_row r = do
    friend_id ← or_throw (r.get_int "friend_id")
    back ← or_throw (r.get_string "back")
    user ← get_user db friend_id
    done (with_back user)

  unfoldable pub get_friend_list : ℤ → Dao (Bool × List FriendInfo)
  get_friend_list self_id =
      leased db (false, [])
        (fill
          (record { sql = "select * from friend where self_id = ? "; params = int self_id ∷ [] })
          friend_row)

  unfoldable pub history_body : Bytes → ℤ → ℤ → ℕ → Dao (Bool × List StoredMsg)
  history_body session_id last_id limit con = do
    page ← fill (history_query session_id last_id limit) message_row con
    done (ascending page)

  unfoldable pub get_chat_msg_list : Bytes → ℤ → ℤ → Dao (Bool × List StoredMsg)
  get_chat_msg_list session_id last_id limit =
      leased db (false, []) (history_body session_id last_id (page_limit limit))

  unfoldable pub get_user_groups : ℤ → Dao (Bool × List GroupInfo)
  get_user_groups uid =
      leased db (false, [])
        (fill
          (record {
            sql =
                "SELECT g.group_id, g.name, g.owner_uid, (SELECT COUNT(*) FROM chat_group_member m2 WHERE m2.group_id = g.group_id) AS member_count FROM chat_group g JOIN chat_group_member m ON g.group_id = m.group_id WHERE m.uid = ? ORDER BY g.group_id DESC";
            params = int uid ∷ [];
          })
          group_row)

  unfoldable pub get_group_members : ℤ → Dao (Bool × List ℤ)
  get_group_members group_id =
      leased db (false, [])
        (fill
          (record {
            sql = "SELECT uid FROM chat_group_member WHERE group_id = ?";
            params = int group_id ∷ [];
          })
          member_row)

  unfoldable pub is_group_member_body : ℤ → ℤ → ℕ → Dao Bool
  is_group_member_body group_id uid con = do
    res ← select db con (record {
      sql = "SELECT 1 FROM chat_group_member WHERE group_id = ? AND uid = ? LIMIT 1";
      params = int group_id ∷ int uid ∷ [];
    })
    found ← next res
    done (present found)

  unfoldable pub is_group_member : ℤ → ℤ → Dao Bool
  is_group_member group_id uid = leased db false (is_group_member_body group_id uid)
