-- ===== src/Dao/Users.antt =====
-- ChatSever/MysqlDao.cpp: the operations on one user and on friend requests.
use minichat.Base.{
  ℕ, Bool, true, false, Option, none, some, [], ◌∷◌, Bytes, ◌==◌, bytes_eq, if◌then◌else◌,
}
use minichat.Base.Int.{ℤ, pos, negsuc, leb_ℤ}
use minichat.Chat.World.{UserInfo}
use minichat.Dao.{
  int, text, Query, Row, ResultSet, finished, broken, row, Database, Dao, ◌>>=◌, ◌>>◌, done,
  or_throw, next, give_back, try_giving, update, select, with_connection, leased,
}

-- rowAffected < 0 ? false : true
abbrev pub unless_negative : ℤ → Bool
unless_negative affected = leb_ℤ (pos 0) affected

abbrev pub reg_user_result : ℕ → Option (Row × ResultSet) → Dao ℤ
reg_user_result con none = give_back con >> done (negsuc 0)
reg_user_result con (some (r, rest)) = do
  result ← or_throw (r.get_int "result")
  give_back con
  done result

abbrev pub email_query : Bytes → Query
email_query name = record { sql = "SELECT email FROM user WHERE name = ?"; params = text name ∷ [] }

-- The first row decides. Without a row the connection is kept, and the result is `no_row`.
abbrev pub check_email_result : Bool → ℕ → Bytes → Option (Row × ResultSet) → Dao Bool
check_email_result no_row con email none = done no_row
check_email_result no_row con email (some (r, rest)) = do
  printed ← or_throw (r.get_string "email")
  stored ← or_throw (r.get_string "email")
  give_back con
  done (email == stored)

-- The getters that CheckPwd reads after its loop: of the first row, or of the end.
abbrev pub first_row : ResultSet → Option Row
first_row (finished at_end) = some at_end
first_row broken = none
first_row (row r rest) = some r

-- `origin_pwd` after the loop: empty without a row.
abbrev pub origin_pwd : ResultSet → Option Bytes
origin_pwd (finished at_end) = some []
origin_pwd broken = none
origin_pwd (row r rest) = r.get_string "pwd"

-- The fields that CheckPwd fills: name, email, uid and pwd.
pub record Account : Type 0 where
  pub name : Bytes
  pub email : Bytes
  pub uid : ℤ
  pub pwd : Bytes

abbrev pub account_of : Bytes → Bytes → Row → Dao (Option Account)
account_of name pwd r = do
  email ← or_throw (r.get_string "email")
  uid ← or_throw (r.get_int "uid")
  done (some (record { name = name; email = email; uid = uid; pwd = pwd }))

-- The row as GetUser(int) reads it.
abbrev pub user_by_uid : ℤ → Row → Dao UserInfo
user_by_uid uid r = do
  pwd ← or_throw (r.get_string "pwd")
  email ← or_throw (r.get_string "email")
  name ← or_throw (r.get_string "name")
  nick ← or_throw (r.get_string "nick")
  desc ← or_throw (r.get_string "desc")
  sex ← or_throw (r.get_int "sex")
  icon ← or_throw (r.get_string "icon")
  done (record {
    name = name;
    pwd = pwd;
    uid = uid;
    email = email;
    nick = nick;
    desc = desc;
    sex = sex;
    icon = icon;
  })

-- The row as GetUser(std::string) reads it: without the icon.
abbrev pub user_by_name : Row → Dao UserInfo
user_by_name r = do
  pwd ← or_throw (r.get_string "pwd")
  email ← or_throw (r.get_string "email")
  name ← or_throw (r.get_string "name")
  nick ← or_throw (r.get_string "nick")
  desc ← or_throw (r.get_string "desc")
  sex ← or_throw (r.get_int "sex")
  uid ← or_throw (r.get_int "uid")
  done (record {
    name = name;
    pwd = pwd;
    uid = uid;
    email = email;
    nick = nick;
    desc = desc;
    sex = sex;
    icon = [];
  })

abbrev pub only_row : (Row → Dao UserInfo) → Option (Row × ResultSet) → Dao (Option UserInfo)
only_row read none = done none
only_row read (some (r, rest)) = read r >>= λ user. done (some user)

module _ (db : Database) where
  unfoldable pub reg_user_body : Bytes → Bytes → Bytes → ℕ → Dao ℤ
  reg_user_body name email pwd con = do
    update db con (record {
      sql = "CALL reg_user(?,?,?,@result)";
      params = text name ∷ text email ∷ text pwd ∷ [];
    })
    res ← select db con (record { sql = "SELECT @result AS result"; params = [] })
    found ← next res
    reg_user_result con found

  -- `return false` for nullptr is 0.
  unfoldable pub reg_user : Bytes → Bytes → Bytes → Dao ℤ
  reg_user name email pwd =
      with_connection db (pos 0)
        (λ con. try_giving con (negsuc 0) (reg_user_body name email pwd con))

  unfoldable pub check_email_body : Bool → Bytes → Bytes → ℕ → Dao Bool
  check_email_body no_row name email con = do
    res ← select db con (email_query name)
    found ← next res
    check_email_result no_row con email found

  unfoldable pub check_email : Bytes → Bytes → Dao Bool
  check_email name email =
      with_connection db false (λ con. try_giving con false (check_email_body true name email con))

  unfoldable pub update_pwd_body : Bytes → Bytes → ℕ → Dao Bool
  update_pwd_body name newpwd con = do
    update_count ← update db con (record {
      sql = "UPDATE user SET pwd = ? WHERE name = ?";
      params = text newpwd ∷ text name ∷ [];
    })
    give_back con
    done true

  unfoldable pub update_pwd : Bytes → Bytes → Dao Bool
  update_pwd name newpwd =
      with_connection db false (λ con. try_giving con false (update_pwd_body name newpwd con))

  unfoldable pub check_pwd_body : Bytes → Bytes → ℕ → Dao (Option Account)
  check_pwd_body name pwd con = do
    res ←
        select db con
          (record { sql = "SELECT * FROM user WHERE name = ?"; params = text name ∷ [] })
    origin ← or_throw (origin_pwd res)
    at ← or_throw (first_row res)
    if pwd == origin then account_of name origin at else done none

  -- The result with `userInfo`; `none` is false.
  unfoldable pub check_pwd : Bytes → Bytes → Dao (Option Account)
  check_pwd name pwd = leased db none (check_pwd_body name pwd)

  unfoldable pub add_friend_apply_body : ℤ → ℤ → ℕ → Dao Bool
  add_friend_apply_body from to con = do
    affected ← update db con (record {
      sql =
          "INSERT INTO friend_apply (from_uid, to_uid) values (?,?) ON DUPLICATE KEY UPDATE from_uid = from_uid, to_uid = to_uid";
      params = int from ∷ int to ∷ [];
    })
    done (unless_negative affected)

  unfoldable pub add_friend_apply : ℤ → ℤ → Dao Bool
  add_friend_apply from to = leased db false (add_friend_apply_body from to)

  -- The request was made from `to` to `from`.
  unfoldable pub auth_friend_apply_body : ℤ → ℤ → ℕ → Dao Bool
  auth_friend_apply_body from to con = do
    affected ← update db con (record {
      sql = "UPDATE friend_apply SET status = 1 WHERE from_uid = ? AND to_uid = ?";
      params = int to ∷ int from ∷ [];
    })
    done (unless_negative affected)

  unfoldable pub auth_friend_apply : ℤ → ℤ → Dao Bool
  auth_friend_apply from to = leased db false (auth_friend_apply_body from to)

  unfoldable pub get_user_body : Query → (Row → Dao UserInfo) → ℕ → Dao (Option UserInfo)
  get_user_body q read con = do res ← select db con q; found ← next res; only_row read found

  unfoldable pub get_user : ℤ → Dao (Option UserInfo)
  get_user uid = leased db none (
      get_user_body (record { sql = "SELECT * FROM user WHERE uid = ?"; params = int uid ∷ [] })
        (user_by_uid uid))

  unfoldable pub get_user_named : Bytes → Dao (Option UserInfo)
  get_user_named name = leased db none (
      get_user_body (record { sql = "SELECT * FROM user WHERE name = ?"; params = text name ∷ [] })
        user_by_name)
