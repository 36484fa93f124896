-- ===== src/Dao/Registration.antt =====
-- GateServer/MysqlDao.cpp: RegUserTransaction, which makes a user in one transaction.
use minichat.Base.{ℕ, Bool, true, false, Option, none, some, List, [], ◌∷◌, Bytes}
use minichat.Base.Int.{ℤ, pos, negsuc}
use minichat.Dao.{
  int, text, Query, Row, ResultSet, Control, set_auto_commit, commit, rollback, Event, Database,
  Dao, followed, ◌>>=◌, ◌>>◌, done, or_throw, next, deferred, update, select, control,
  with_connection,
}
pub mod Outcome

abbrev pub email_query : Bytes → Query
email_query email = record { sql = "SELECT 1 FROM user WHERE email = ?"; params = text email ∷ [] }

abbrev pub name_query : Bytes → Query
name_query name = record { sql = "SELECT 1 FROM user WHERE name = ?"; params = text name ∷ [] }

abbrev pub next_id : Query
next_id = record { sql = "UPDATE user_id SET id = id + 1"; params = [] }

abbrev pub id_query : Query
id_query = record { sql = "SELECT id FROM user_id"; params = [] }

-- The nick name is the name.
abbrev pub insert_user : ℤ → Bytes → Bytes → Bytes → Bytes → Query
insert_user new_id name email pwd icon = record {
  sql = "INSERT INTO user (uid, name, email, pwd, nick, icon) VALUES (?, ?, ?, ?,?,?)";
  params = int new_id ∷ text name ∷ text email ∷ text pwd ∷ text name ∷ text icon ∷ [];
}

module _ (db : Database) where
  -- `con->rollback(); return otherwise;`
  abbrev pub give_up : ℕ → ℤ → Dao ℤ
  give_up con otherwise = control db con rollback >> done otherwise

  -- A row means that the address or the name is taken.
  abbrev pub unless_taken : ℕ → Dao ℤ → Option (Row × ResultSet) → Dao ℤ
  unless_taken con rest none = rest
  unless_taken con rest (some found) = give_up con (pos 0)

  abbrev pub insert_with : ℕ → Bytes → Bytes → Bytes → Bytes → Option (Row × ResultSet) → Dao ℤ
  insert_with con name email pwd icon none = give_up con (negsuc 0)
  insert_with con name email pwd icon (some (r, rest)) = do
    new_id ← or_throw (r.get_int "id")
    update db con (insert_user new_id name email pwd icon)
    control db con commit
    done new_id

  abbrev pub make_user : ℕ → Bytes → Bytes → Bytes → Bytes → Dao ℤ
  make_user con name email pwd icon = do
    update db con next_id
    res_uid ← select db con id_query
    found ← next res_uid
    insert_with con name email pwd icon found

  abbrev pub check_name : ℕ → Bytes → Bytes → Bytes → Bytes → Dao ℤ
  check_name con name email pwd icon = do
    res_name ← select db con (name_query name)
    found ← next res_name
    unless_taken con (make_user con name email pwd icon) found

  unfoldable pub reg_user_transaction_body : Bytes → Bytes → Bytes → Bytes → ℕ → Dao ℤ
  reg_user_transaction_body name email pwd icon con = do
    control db con (set_auto_commit false)
    res_email ← select db con (email_query email)
    found ← next res_email
    unless_taken con (check_name con name email pwd icon) found

  -- The catch block; an exception of its rollback leaves the function.
  abbrev pub caught_rolling : ℕ → Option ℤ × List Event → Option ℤ × List Event
  caught_rolling con (some a, log) = (some a, log)
  caught_rolling con (none, log) = give_up con (negsuc 0) log

  abbrev pub rolling : ℕ → Dao ℤ → Dao ℤ
  rolling con body log = caught_rolling con (body log)

  unfoldable pub reg_user_transaction : Bytes → Bytes → Bytes → Bytes → Dao ℤ
  reg_user_transaction name email pwd icon =
      with_connection db (pos 0)
        (λ con. deferred con (rolling con (reg_user_transaction_body name email pwd icon con)))
