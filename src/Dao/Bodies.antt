-- ===== src/Dao/Bodies.antt =====
-- The try blocks keep the discipline of the connection that they hold.
use minichat.Base.{ℕ, Bool, true, Option, none, some, List, ◌++◌, Bytes}
use minichat.Base.Int.{ℤ, negsuc}
use minichat.Chat.World.{UserInfo}
use minichat.Dao.{
  Query, Row, ResultSet, finished, broken, row, Event, Database, Dao, or_throw, next, update,
  select,
}
use minichat.Dao.Users.{
  reg_user_body, reg_user_result, update_pwd_body, check_pwd_body, account_of,
  add_friend_apply_body, auth_friend_apply_body, user_by_uid, user_by_name, only_row, get_user_body,
  get_user,
}
use minichat.Dao.Reports.{
  push_row, read_rows, fill, message_row, friend_row, history_body, is_group_member_body,
}
use minichat.Dao.Gate
use minichat.Dao.Gate.{read_name, read_uid, test_procedure_body, test_procedure}
use minichat.Dao.Leases.{
  Balanced, nothing, Uses, Gives, Uses-done, Uses-or_throw, Uses-if, Uses-next, Uses-bind,
  Gives-bind, Gives-give_back, Uses-update, Uses-select, Uses-leased, Uses-giving,
}

pub ruleset uses_rules =
    (Uses-done, Uses-or_throw, Uses-if, Uses-next, Uses-bind, Uses-update, Uses-select)

-- Reading rows sends nothing by itself.
module _ {user : Option ℕ} where
  pub user_by_uid-Uses : (uid : ℤ) (r : Row) → Uses user (user_by_uid uid r)
  user_by_uid-Uses uid r = search uses_rules depth 20

  pub user_by_name-Uses : (r : Row) → Uses user (user_by_name r)
  user_by_name-Uses r = search uses_rules depth 20

  pub only_row-Uses :
      (read : Row → Dao UserInfo) (found : Option (Row × ResultSet))
      → ((r : Row) → Uses user (read r))
      → Uses user (only_row read found)
  only_row-Uses read none u = Uses-done none
  only_row-Uses read (some (r, rest)) u = Uses-bind (read r) _ (u r) (λ user. Uses-done (some user))

  push_row-Balanced :
      {A : Type 0} {base : List Event} (rest : List A → Dao (Bool × List A)) (pushed : List A)
      (r : Option (List A) × List Event)
      → ((items : List A) → Uses user (rest items))
      → Balanced user base r.1
      → Balanced user base (push_row rest pushed r).1
  push_row-Balanced rest pushed (none, log) u b = b
  push_row-Balanced rest pushed (some items, log) u b = (u (pushed ++ items)).at b

  pub read_rows-Uses :
      {A : Type 0} (read : Row → Dao (List A)) (res : ResultSet) (pushed : List A)
      → ((r : Row) → Uses user (read r))
      → Uses user (read_rows read res pushed)
  unfolding read_rows
  read_rows-Uses read (finished at_end) pushed u = record { at = λ b. b }
  read_rows-Uses read broken pushed u = record { at = λ b. b }
  read_rows-Uses read (row r rest) pushed u = record {
    at = λ {base} {log} b.
        push_row-Balanced (read_rows read rest) pushed (read r log)
          (λ items. read_rows-Uses read rest items u) ((u r).at b);
  }

  pub account_of-Uses : (name pwd : Bytes) (r : Row) → Uses user (account_of name pwd r)
  account_of-Uses name pwd r = search uses_rules depth 20

  pub gate_account_of-Uses : (pwd : Bytes) (r : Row) → Uses user (Gate.account_of pwd r)
  gate_account_of-Uses pwd r = search uses_rules depth 20

  pub read_name-Uses :
      (uid : ℤ) (found : Option (Row × ResultSet)) → Uses user (read_name uid found)
  read_name-Uses uid none = Uses-done none
  read_name-Uses uid (some (r, rest)) = search uses_rules depth 20

module _ (db : Database) where
  pub reg_user_result-Gives :
      (con : ℕ) (found : Option (Row × ResultSet)) → Gives con (reg_user_result con found)
  reg_user_result-Gives con none = Gives-give_back con (negsuc 0)
  reg_user_result-Gives con (some (r, rest)) =
      Gives-bind (or_throw (r.get_int "result")) _ (Uses-or_throw _) (Gives-give_back con)

  pub reg_user_body-Gives :
      (name email pwd : Bytes) (con : ℕ) → Gives con (reg_user_body db name email pwd con)
  unfolding reg_user_body
  reg_user_body-Gives name email pwd con =
      Gives-bind (update db con _) _ (Uses-update db con _) (λ _.
        Gives-bind (select db con _) _ (Uses-select db con _) (λ res.
          Gives-bind (next res) (reg_user_result con) (Uses-next res) (reg_user_result-Gives con)))

  pub update_pwd_body-Gives :
      (name newpwd : Bytes) (con : ℕ) → Gives con (update_pwd_body db name newpwd con)
  unfolding update_pwd_body
  update_pwd_body-Gives name newpwd con =
      Gives-bind (update db con _) _ (Uses-update db con _) (λ _. Gives-give_back con true)

  pub get_user_body-Uses :
      (q : Query) (read : Row → Dao UserInfo) (con : ℕ)
      → ((r : Row) → Uses (some con) (read r))
      → Uses (some con) (get_user_body db q read con)
  unfolding get_user_body
  get_user_body-Uses q read con u = search (uses_rules, only_row-Uses)

  pub check_pwd_body-Uses :
      (name pwd : Bytes) (con : ℕ) → Uses (some con) (check_pwd_body db name pwd con)
  unfolding check_pwd_body
  check_pwd_body-Uses name pwd con = search (uses_rules, account_of-Uses) depth 12

  pub gate_check_pwd_body-Uses :
      (email pwd : Bytes) (con : ℕ) → Uses (some con) (Gate.check_pwd_body db email pwd con)
  unfolding Gate.check_pwd_body
  gate_check_pwd_body-Uses email pwd con = search (uses_rules, gate_account_of-Uses) depth 12

  pub read_uid-Uses :
      (con : ℕ) (found : Option (Row × ResultSet)) → Uses (some con) (read_uid db con found)
  read_uid-Uses con none = Uses-done none
  read_uid-Uses con (some (r, rest)) = search (uses_rules, read_name-Uses) depth 12

  pub test_procedure_body-Uses :
      (email : Bytes) (con : ℕ) → Uses (some con) (test_procedure_body db email con)
  unfolding test_procedure_body
  test_procedure_body-Uses email con = search (uses_rules, read_uid-Uses) depth 12

  pub fill-Uses :
      {A : Type 0} (q : Query) (read : Row → Dao (List A)) (con : ℕ)
      → ((r : Row) → Uses (some con) (read r))
      → Uses (some con) (fill db q read con)
  unfolding fill
  fill-Uses q read con u = search (uses_rules, read_rows-Uses)

  pub history_body-Uses :
      (session_id : Bytes) (last_id limit : ℤ) (con : ℕ)
      → Uses (some con) (history_body db session_id last_id limit con)
  unfolding history_body
  history_body-Uses session_id last_id limit con =
      Uses-bind (fill db _ message_row con) _
        (fill-Uses _ message_row con (λ r. search uses_rules depth 24)) (λ page. Uses-done _)

  -- In the loop over the friends GetUser has a lease of its own.
  pub get_user-Uses : {user : Option ℕ} (uid : ℤ) → Uses user (get_user db uid)
  unfolding get_user
  get_user-Uses uid =
      Uses-leased db none _
        (λ con. get_user_body-Uses _ (user_by_uid uid) con (user_by_uid-Uses uid))

  pub friend_row-Uses : {user : Option ℕ} (r : Row) → Uses user (friend_row db r)
  friend_row-Uses r = search (uses_rules, get_user-Uses) depth 12

  pub add_friend_apply_body-Uses :
      (from to : ℤ) (con : ℕ) → Uses (some con) (add_friend_apply_body db from to con)
  unfolding add_friend_apply_body
  add_friend_apply_body-Uses from to con = search uses_rules

  pub auth_friend_apply_body-Uses :
      (from to : ℤ) (con : ℕ) → Uses (some con) (auth_friend_apply_body db from to con)
  unfolding auth_friend_apply_body
  auth_friend_apply_body-Uses from to con = search uses_rules

  pub is_group_member_body-Uses :
      (group_id uid : ℤ) (con : ℕ) → Uses (some con) (is_group_member_body db group_id uid con)
  unfolding is_group_member_body
  is_group_member_body-Uses group_id uid con = search uses_rules
